-- ===== src/Client/Kept.antt =====
-- What `try_frame` and `finish_ok` leave as it was.
use epoll_gateway.Base.{ℕ, ◌≡◌, arith, inl, inr, Option-cases}
use epoll_gateway.Base.Bytes.{Bytes, find_sub}
use epoll_gateway.Client.Chunks.{ChunkScan}
use epoll_gateway.Client.State.{Exchange}
use epoll_gateway.Client.Framing.{
  blank_line, frame_scan, frame_length, frame_to_close, frame_body, try_frame,
}

pub record Kept (x x' : Exchange) : Type 0 where
  pub phase : x'.phase ≡ x.phase
  pub sock : x'.sock ≡ x.sock
  pub used_pooled : x'.used_pooled ≡ x.used_pooled
  pub retried : x'.retried ≡ x.retried
  pub force_fresh : x'.force_fresh ≡ x.force_fresh
  pub request_bytes : x'.request_bytes ≡ x.request_bytes
  pub send_off : x'.send_off ≡ x.send_off
  pub response_bytes : x'.response_bytes ≡ x.response_bytes
  pub peer_closed : x'.peer_closed ≡ x.peer_closed
  pub succeeded : x'.succeeded ≡ x.succeeded

pub Kept-refl : (x : Exchange) → Kept x x
Kept-refl x = ground arith

frame_scan-Kept : (x : Exchange) (scan : ChunkScan) → Kept x (frame_scan x scan).0
unfolding frame_scan
frame_scan-Kept x scan = ground arith

frame_body-Kept :
    (fuel most : ℕ) (x : Exchange) (headers_part : Bytes)
    → Kept x (frame_body fuel most x headers_part).0
unfolding frame_body frame_length frame_to_close
frame_body-Kept fuel most x headers_part = ground arith

pub try_frame-Kept : (fuel most : ℕ) (x : Exchange) → Kept x (try_frame fuel most x).0
unfolding try_frame
try_frame-Kept fuel most x = elim (Option-cases (find_sub blank_line x.response_bytes)) [
  | inl absent ↦ rw (absent, try_frame) (ground arith)
  | inr ((headers_part, rest), e) ↦ rw (e, try_frame) (frame_body-Kept fuel most x headers_part)
]
