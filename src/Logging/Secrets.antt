-- ===== src/Logging/Secrets.antt =====
-- The log does not depend on the value of a sensitive parameter.
use mathlib.Core.List.{append_assoc, append-nil}
use epoll_gateway.Base.{
  ℕ, true, false, List, map, all, [], ◌∷◌, ◌++◌, some, ◌==◌, ◌≡◌, refl, sym, ap, ◌∙◌, arith,
}
use epoll_gateway.Base.Bytes.{Bytes, split_at}
use epoll_gateway.Base.Decimal.{free_of}
use epoll_gateway.Config.Types.{LoggingConfig}
use epoll_gateway.Logging.Redact.{
  contains_name, decode_query_name, redact_part, redact_query, redact_request_target, redacted,
}

split_at-join : (c : ℕ) (a b : Bytes) → free_of c a ≡ true → split_at c (a ++ (c ∷ b)) ≡ some (a, b)
unfolding split_at
split_at-join c [] b h = ground arith
split_at-join c (x ∷ a) b h = ground (arith, split_at-join c a b)

redact_query-part :
    (config : LoggingConfig) (xs part rest : Bytes)
    → free_of b'&' xs ≡ true
    → redact_query config part (xs ++ (b'&' ∷ rest))
      ≡ redact_part config (part ++ xs) ++ (b'&' ∷ redact_query config [] rest)
unfolding redact_query
redact_query-part config [] part rest h =
    ap (λ p. redact_part config p ++ (b'&' ∷ redact_query config [] rest))
      (sym (append_nil_lem part))
  where
    append_nil_lem : (p : Bytes) → p ++ [] ≡ p
    append_nil_lem [] = refl
    append_nil_lem (x ∷ p) = ap (◌∷◌ x) (append_nil_lem p)
redact_query-part config (x ∷ xs) part rest h =
    let later = redact_query-part config xs (part ++ x ∷ []) rest (ground arith) in
    let same = append_assoc part (x ∷ []) xs in
    let other : (x == b'&') ≡ false = ground arith in
    rw other (later ∙ ap (λ p. redact_part config p ++ (b'&' ∷ redact_query config [] rest)) same)

redact_part-sensitive :
    (config : LoggingConfig) (name value : Bytes)
    → free_of b'=' name ≡ true
    → contains_name config.sensitive_query_params (decode_query_name name) ≡ true
    → redact_part config (name ++ (b'=' ∷ value)) ≡ name ++ (b'=' ∷ redacted)
unfolding redact_part
redact_part-sensitive config name value h s =
    rw (redact_part, split_at-join b'=' name value h, s) refl

redact_query-last :
    (config : LoggingConfig) (xs part : Bytes)
    → free_of b'&' xs ≡ true
    → redact_query config part xs ≡ redact_part config (part ++ xs)
unfolding redact_query
redact_query-last config [] part h = ap (redact_part config) (sym (append-nil part))
redact_query-last config (x ∷ xs) part h =
    let later = redact_query-last config xs (part ++ x ∷ []) (ground arith) in
    let other : (x == b'&') ≡ false = ground arith in
    rw other (later ∙ ap (redact_part config) (append_assoc part (x ∷ []) xs))

-- A query of parameters.
abbrev pub join_parts : List Bytes → Bytes
join_parts [] = []
join_parts (part ∷ []) = part
join_parts (part ∷ next ∷ rest) = part ++ (b'&' ∷ join_parts (next ∷ rest))

redact_query-join_parts :
    (config : LoggingConfig) (part : Bytes) (rest : List Bytes)
    → all (free_of b'&') (part ∷ rest) ≡ true
    → redact_query config [] (join_parts (part ∷ rest))
      ≡ join_parts (map (redact_part config) (part ∷ rest))
redact_query-join_parts config part [] h = redact_query-last config part [] (ground arith)
redact_query-join_parts config part (next ∷ rest) h =
    redact_query-part config part [] (join_parts (next ∷ rest)) (ground arith)
    ∙ ap (λ q. redact_part config part ++ (b'&' ∷ q))
        (redact_query-join_parts config next rest (ground arith))

-- Wherever in the query of a request target a sensitive parameter stands, it is logged with its name
-- and in place of its value a fixed text, whatever the value, where redaction is switched on; and
-- every other parameter is logged as `redact_part` has it. The path holds no question mark, the
-- parameters no ampersand, and the sensitive one's name no equals sign.
pub redact_request_target-sensitive :
    (config : LoggingConfig) (path name value : Bytes) (before after : List Bytes)
    → config.redact_sensitive_query_params ≡ true
    → free_of b'?' path ≡ true
    → free_of b'=' name ≡ true
    → all (free_of b'&') (before ++ ((name ++ (b'=' ∷ value)) ∷ after)) ≡ true
    → contains_name config.sensitive_query_params (decode_query_name name) ≡ true
    → redact_request_target
        (path ++ (b'?' ∷ join_parts (before ++ ((name ++ (b'=' ∷ value)) ∷ after))))
        config
      ≡ path
        ++ (b'?'
            ∷ join_parts (
                map (redact_part config) before
                ++ ((name ++ (b'=' ∷ redacted)) ∷ map (redact_part config) after)))
unfolding redact_request_target redact_part
redact_request_target-sensitive config path name value before after on q eq amp s =
    let part = name ++ (b'=' ∷ value) in
    let parts = before ++ (part ∷ after) in
    let shown : map (redact_part config) parts
        ≡ map (redact_part config) before
          ++ ((name ++ (b'=' ∷ redacted)) ∷ map (redact_part config) after) =
      map-append before
      ∙ ap (λ p. map (redact_part config) before ++ (p ∷ map (redact_part config) after))
          (redact_part-sensitive config name value eq s) in
    rw (redact_request_target, on, split_at-join b'?' path (join_parts parts) q)
      (ap (λ x. path ++ (b'?' ∷ x)) (whole before amp ∙ ap join_parts shown))
  where
    map-append :
        (xs : List Bytes)
        → map (redact_part config) (xs ++ ((name ++ (b'=' ∷ value)) ∷ after))
          ≡ map (redact_part config) xs
            ++ (redact_part config (name ++ (b'=' ∷ value)) ∷ map (redact_part config) after)
    map-append [] = refl
    map-append (x ∷ xs) = ap (λ t. redact_part config x ∷ t) (map-append xs)

    whole :
        (xs : List Bytes)
        → all (free_of b'&') (xs ++ ((name ++ (b'=' ∷ value)) ∷ after)) ≡ true
        → redact_query config [] (join_parts (xs ++ ((name ++ (b'=' ∷ value)) ∷ after)))
          ≡ join_parts (map (redact_part config) (xs ++ ((name ++ (b'=' ∷ value)) ∷ after)))
    whole [] h = redact_query-join_parts config (name ++ (b'=' ∷ value)) after h
    whole (x ∷ xs) h = redact_query-join_parts config x (xs ++ ((name ++ (b'=' ∷ value)) ∷ after)) h
