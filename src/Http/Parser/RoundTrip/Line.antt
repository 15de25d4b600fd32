-- ===== src/Http/Parser/RoundTrip/Line.antt =====
-- The parser over one piece of the request line, with any `rest` behind it.
use mathlib.Core.List.{append-nil, append_assoc}
use epoll_gateway.Base.{
  ℕ, suc, ◌+◌, ◌≤◌, Bool, true, false, [], ◌∷◌, ◌++◌, ◌≡◌, ◌⊎◌, refl, ap, ◌∙◌, sym, arith, length,
  length-append, all,
}
use epoll_gateway.Base.Bytes.{Bytes}
use epoll_gateway.Http.Chars.{is_valid_request_line_char}
use epoll_gateway.Http.Message.{HttpRequest}
use epoll_gateway.Http.Parser.State.{State, HttpParser, falls, max_request_line_size}
use epoll_gateway.Http.Parser.Loop.{step_in, step, parse_from, is_done}
use epoll_gateway.Http.Parser.Errors.{parse_from-falls}
use epoll_gateway.Http.Parser.RoundTrip.Sent.{is_path_char}

abbrev pushed : HttpParser → ℕ → HttpParser
pushed p c = record p { buffer = p.buffer ++ c ∷ [] }

step-target :
    (p : HttpParser) (r : HttpRequest) (c : ℕ)
    → (p.state ≡ State.method) ⊎ (p.state ≡ State.path) ⊎ (p.state ≡ State.query)
    → is_path_char c ≡ true
    → length (pushed p c).buffer ≤ max_request_line_size
    → step p r c ≡ falls (pushed p c) r
unfolding step_in is_path_char is_valid_request_line_char
step-target p r c s h l = ground arith

step-version :
    (p : HttpParser) (r : HttpRequest) (c : ℕ)
    → p.state ≡ State.version
    → p.cr_seen ≡ false
    → is_valid_request_line_char c ≡ true
    → length (pushed p c).buffer ≤ max_request_line_size
    → step p r c ≡ falls (pushed p c) r
unfolding step_in is_valid_request_line_char
step-version p r c s n h l = ground arith

-- The three states that push every byte of a target, and the state VERSION within its line.
abbrev pub InTarget : HttpParser → Type 0
InTarget p = (p.state ≡ State.method) ⊎ (p.state ≡ State.path) ⊎ (p.state ≡ State.query)

abbrev pub InVersion : HttpParser → Type 0
InVersion p = (p.state ≡ State.version) × (p.cr_seen ≡ false)

module _ (accepts : ℕ → Bool) (In : HttpParser → Type 0)
    (step_lem : (p : HttpParser) (r : HttpRequest) (c : ℕ)
      → In p
      → accepts c ≡ true
      → length (pushed p c).buffer ≤ max_request_line_size
      → step p r c ≡ falls (pushed p c) r)
    (stays : (p : HttpParser) (c : ℕ) → In p → In (pushed p c) × (is_done p.state ≡ false)) where
  parse_from-pushed :
      (xs rest : Bytes) (i j : ℕ) (p : HttpParser) (r : HttpRequest) (b : Bytes)
      → In p
      → all accepts xs ≡ true
      → b ≡ p.buffer ++ xs
      → length b ≤ max_request_line_size
      → j ≡ i + length xs
      → parse_from i p r (xs ++ rest) ≡ parse_from j (record p { buffer = b }) r rest
  parse_from-pushed [] rest i j p r b s h e l k =
      let same : i ≡ j = omega arith in
      let kept : p.buffer ≡ b = sym (e ∙ append-nil p.buffer) in cc (same, kept)
  parse_from-pushed (c ∷ cs) rest i j p r b s h e l k =
      let whole = e ∙ sym (append_assoc p.buffer (c ∷ []) cs) in
      let fits : length (pushed p c).buffer ≤ max_request_line_size =
        omega (arith, ap length whole, length-append (p.buffer ++ c ∷ []) cs) in
      parse_from-falls i p r c (cs ++ rest) (pushed p c) r (step_lem p r c s (ground arith) fits)
        (stays p c s).1
      ∙ parse_from-pushed cs rest (suc i) j (pushed p c) r b (stays p c s).0 (ground arith) whole l
          (omega arith)

pub parse_from-target :
    (xs rest : Bytes) (i j : ℕ) (p : HttpParser) (r : HttpRequest)
    → InTarget p
    → p.buffer ≡ []
    → all is_path_char xs ≡ true
    → length xs ≤ max_request_line_size
    → j ≡ i + length xs
    → parse_from i p r (xs ++ rest) ≡ parse_from j (record p { buffer = xs }) r rest
parse_from-target xs rest i j p r s z h l k =
    parse_from-pushed is_path_char InTarget step-target (λ p c s. (s, ground arith)) xs rest i j p r
      xs s h (rw z refl) l k

pub parse_from-version :
    (xs rest : Bytes) (i j : ℕ) (p : HttpParser) (r : HttpRequest)
    → InVersion p
    → p.buffer ≡ []
    → all is_valid_request_line_char xs ≡ true
    → length xs ≤ max_request_line_size
    → j ≡ i + length xs
    → parse_from i p r (xs ++ rest) ≡ parse_from j (record p { buffer = xs }) r rest
parse_from-version xs rest i j p r s z h l k =
    parse_from-pushed is_valid_request_line_char InVersion (λ p r c s. step-version p r c s.0 s.1)
      (λ p c s. (s, ground arith)) xs rest i j p r xs s h (rw z refl) l k

-- The delimiters.
abbrev cleared : State → HttpParser → HttpParser
cleared s p = record p { buffer = []; state = s }

pub end_method :
    (i : ℕ) (p : HttpParser) (r : HttpRequest) (rest : Bytes)
    → p.state ≡ State.method
    → parse_from i p r (b' ' ∷ rest)
      ≡ parse_from (suc i) (cleared State.path p) (record r { method = p.buffer }) rest
end_method i p r rest s = parse_from-falls i p r b' ' rest _ _ (unfold step_in in ground arith) refl

pub end_path :
    (i : ℕ) (p : HttpParser) (r : HttpRequest) (rest : Bytes)
    → p.state ≡ State.path
    → parse_from i p r (b' ' ∷ rest)
      ≡ parse_from (suc i) (cleared State.version p) (record r { path = p.buffer }) rest
end_path i p r rest s = parse_from-falls i p r b' ' rest _ _ (unfold step_in in ground arith) refl

pub start_query :
    (i : ℕ) (p : HttpParser) (r : HttpRequest) (rest : Bytes)
    → p.state ≡ State.path
    → parse_from i p r (b'?' ∷ rest)
      ≡ parse_from (suc i) (cleared State.query p) (record r { path = p.buffer }) rest
start_query i p r rest s =
    parse_from-falls i p r b'?' rest _ _ (unfold step_in in ground arith) refl

pub end_query :
    (i : ℕ) (p : HttpParser) (r : HttpRequest) (rest : Bytes)
    → p.state ≡ State.query
    → parse_from i p r (b' ' ∷ rest)
      ≡ parse_from (suc i) (cleared State.version p) (record r { query = p.buffer }) rest
end_query i p r rest s = parse_from-falls i p r b' ' rest _ _ (unfold step_in in ground arith) refl

pub end_version :
    (i : ℕ) (p : HttpParser) (r : HttpRequest) (rest : Bytes)
    → p.state ≡ State.version
    → p.cr_seen ≡ false
    → parse_from i p r (b'\r' ∷ b'\n' ∷ rest)
      ≡ parse_from (suc (suc i)) (cleared State.header p) (record r { version = p.buffer }) rest
end_version i p r rest s z =
    parse_from-falls i p r b'\r' (b'\n' ∷ rest) (record p { cr_seen = true }) r
      (unfold step_in in ground arith) (ground arith)
    ∙ parse_from-falls (suc i) (record p { cr_seen = true }) r b'\n' rest (cleared State.header p)
        (record r { version = p.buffer }) (unfold step_in in ground arith) refl
