-- ===== src/Client/Io.antt =====
-- What the operating system and OpenSSL answer, as common/mysocket.cpp and common/poller.h pass it
-- on.
use epoll_gateway.Base.{ℕ}
use epoll_gateway.Base.Bytes.{Bytes}

-- `errno`: EAGAIN and EWOULDBLOCK are one value.
pub data Errno : Type 0 where
  eintr eagain epipe other : Errno

-- `Poller::WaitResult`.
pub data WaitResult : Type 0 where
  ready timeout error : WaitResult

pub data SslHandshakeStatus : Type 0 where
  complete want_read want_write failed : SslHandshakeStatus

pub data SslWant : Type 0 where
  no_want read write : SslWant

-- A write took `n + 1` bytes, or none.
pub data Written : Type 0 where
  wrote : ℕ → Written
  refused : Errno → Written

-- A read gave a first byte and more, the end of the stream, or nothing.
pub data Received : Type 0 where
  bytes : ℕ → Bytes → Received
  closed : Received
  failed : Errno → Received

-- A call of a method of `Socket` returns or throws.
pub data Call {ℓ} (A : Type ℓ) : Type ℓ where
  returned : A → Call A
  thrown : Call A

-- `Socket::send`, on what `::send` answers.
unfoldable pub socket_send : Written → Call Written
socket_send (Written.refused Errno.eintr) = Call.thrown
socket_send (Written.refused Errno.other) = Call.thrown
socket_send answer = Call.returned answer

-- `Socket::recv`, on what `::recv` answers.
unfoldable pub socket_recv : Received → Call Received
socket_recv (Received.failed Errno.eintr) = Call.thrown
socket_recv (Received.failed Errno.epipe) = Call.thrown
socket_recv (Received.failed Errno.other) = Call.thrown
socket_recv answer = Call.returned answer

-- What `SSL_read` and `SSL_write` answer, with `SSL_get_error`: bytes; SSL_ERROR_WANT_READ and
-- SSL_ERROR_WANT_WRITE; SSL_ERROR_ZERO_RETURN; the two forms of an end of stream without
-- close_notify; and any other error.
pub data SslAnswer {ℓ} (A : Type ℓ) : Type ℓ where
  took : A → SslAnswer A
  want_read want_write zero_return unexpected_eof failed : SslAnswer A

-- `Socket::sslWrite`, with `last_want_`. EIO is one of the other values of `errno`.
unfoldable pub ssl_write : SslAnswer ℕ → Written × SslWant
ssl_write (SslAnswer.took n) = (Written.wrote n, SslWant.no_want)
ssl_write SslAnswer.want_read = (Written.refused Errno.eagain, SslWant.read)
ssl_write SslAnswer.want_write = (Written.refused Errno.eagain, SslWant.write)
ssl_write _ = (Written.refused Errno.other, SslWant.no_want)

-- `Socket::sslRead`.
unfoldable pub ssl_read : SslAnswer (ℕ × Bytes) → Received × SslWant
ssl_read (SslAnswer.took (c, cs)) = (Received.bytes c cs, SslWant.no_want)
ssl_read SslAnswer.want_read = (Received.failed Errno.eagain, SslWant.read)
ssl_read SslAnswer.want_write = (Received.failed Errno.eagain, SslWant.write)
ssl_read SslAnswer.zero_return = (Received.closed, SslWant.no_want)
ssl_read SslAnswer.unexpected_eof = (Received.closed, SslWant.no_want)
ssl_read SslAnswer.failed = (Received.failed Errno.other, SslWant.no_want)
