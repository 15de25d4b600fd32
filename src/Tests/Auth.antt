-- ===== src/Tests/Auth.antt =====
-- API keys (include/server/api_key_manager.h) on concrete configurations.
use epoll_gateway.Base.{ℕ, zero, suc, true, [], ◌∷◌, ◌++◌, none, some, ◌≡◌, ◌↔◌, refl, arith}
use epoll_gateway.Base.Bytes.{Bytes, ascii}
use epoll_gateway.Config.Types.{ApiKeyConfig, default_route}
use epoll_gateway.Auth.Compare.{
  constant_time_equals, diff_from, xor_byte, or_byte, constant_time_equals_iff,
}
use epoll_gateway.Auth.Manager.{create, reload, find_constant_time, authorize}
use epoll_gateway.Auth.Keys.{last_for, Permitted, find_constant_time-create, authorize_iff}

abbrev nulls : ℕ → Bytes
nulls zero = []
nulls (suc n) = 0 ∷ nulls n

-- Two keys whose lengths differ by 256, with null bytes behind, are taken for equal.
padded_equal : constant_time_equals (ascii "k") (ascii "k" ++ nulls 256) ≡ true
unfolding constant_time_equals diff_from xor_byte or_byte
padded_equal = refl

constant_time_equals_iff_example :
    (constant_time_equals (ascii "secret") (ascii "secreT") ≡ true)
    ↔ (ascii "secret" ≡ ascii "secreT")
constant_time_equals_iff_example =
    constant_time_equals_iff (ascii "secret") (ascii "secreT") refl refl (omega arith) (omega arith)

abbrev user_key : ApiKeyConfig
user_key = record {
  key = ascii "secret";
  name = ascii "user";
  rate_limit = record { capacity = 10; refill_per_second = 1 };
  allowed_hosts = [];
  allowed_tenants = ascii "*" ∷ [];
}

abbrev newer_key : ApiKeyConfig
newer_key = record user_key { name = ascii "newer" }

find_constant_time-create_example :
    (find_constant_time (create (user_key ∷ newer_key ∷ [])) (ascii "secret")
      ≡ last_for (ascii "secret") (user_key ∷ newer_key ∷ []) none)
    × (find_constant_time (reload (create []) (user_key ∷ newer_key ∷ [])) (ascii "secret")
        ≡ last_for (ascii "secret") (user_key ∷ newer_key ∷ []) none)
find_constant_time-create_example =
    find_constant_time-create (create []) (user_key ∷ newer_key ∷ []) (ascii "secret") refl refl

authorize_iff_example :
    (authorize (create (user_key ∷ [])) (ascii "secret") default_route [] [] ≡ true) ↔ (
      (config : ApiKeyConfig) × (last_for (ascii "secret") (user_key ∷ []) none ≡ some config)
      × Permitted config (ascii "secret") default_route [] [])
authorize_iff_example = authorize_iff (user_key ∷ []) (ascii "secret") default_route [] [] refl refl
