-- ===== src/Exception/Tests.antt =====
-- mpi_exception.c at single codes.
use mpi_ruby.Base.{◌≡◌, refl}
use mpi_ruby.Ruby.{raised, mpi_error}
use mpi_ruby.Mpi.{Code}
use mpi_ruby.Exception.{message, mpi_exception}

unlisted_code : mpi_exception (Code.unlisted 77) ≡ raised (mpi_error "Unknown error")
unfolding mpi_exception message
unlisted_code = refl
