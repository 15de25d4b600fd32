-- ===== src/Upstream/Probing.antt =====
-- What a round of health checks leaves.
use mathlib.Core.List.{append_assoc}
use epoll_gateway.Base.{
  ℕ, suc, ◌+◌, ◌<◌, Bool, true, false, not, ◌&&◌, List, [], ◌∷◌, ◌++◌, map, some, Option-cases, inl,
  inr, ◌≡◌, refl, ap, ◌∙◌, sym, arith, length, modify, if◌then◌else◌, Bool-cases, length-append,
}
use epoll_gateway.Base.Bytes.{Bytes, eq_bytes, eq_bytes_iff}
use epoll_gateway.Base.Int.{ℤ}
use epoll_gateway.Base.Table.{Table, lookup, lookup-insert, lookup-insert_self}
use epoll_gateway.Config.Types.{UpstreamServer, Upstream}
use epoll_gateway.Upstream.Manager.{UpstreamManager}
use epoll_gateway.Upstream.Health.{
  update_server, ProbeResult, apply_result, apply_results, probe_servers, probe_all, check_health,
}

modify-append :
    (pre rest : List UpstreamServer) (s : UpstreamServer) (f : UpstreamServer → UpstreamServer)
    → modify (pre ++ s ∷ rest) (length pre) f ≡ pre ++ (f s ∷ rest)
modify-append [] rest s f = refl
modify-append (x ∷ pre) rest s f = ap (◌∷◌ x) (modify-append pre rest s f)

apply_results-append :
    (t : Table Upstream) (xs ys : List ProbeResult)
    → apply_results t (xs ++ ys) ≡ apply_results (apply_results t xs) ys
unfolding apply_results
apply_results-append t [] ys = refl
apply_results-append t (x ∷ xs) ys = apply_results-append (apply_result t x) xs ys

-- No two entries of a map have one key.
abbrev pub absent : Bytes → Table Upstream → Bool
absent name [] = true
absent name ((other, up) ∷ rest) = not (eq_bytes other name) && absent name rest

abbrev pub distinct : Table Upstream → Bool
distinct [] = true
distinct ((name, up) ∷ rest) = absent name rest && distinct rest

module _ (probe : Bytes → ℤ → Bool) where
  -- A server after its probe.
  abbrev pub probed : UpstreamServer → UpstreamServer
  probed s = update_server (probe s.host s.port) s

  abbrev pub probed_upstream : Upstream → Upstream
  probed_upstream up = record up { servers = map probed up.servers }

apply_result-other :
    (t : Table Upstream) (r : ProbeResult) (name : Bytes)
    → eq_bytes r.upstream_name name ≡ false
    → lookup name (apply_result t r) ≡ lookup name t
unfolding apply_result
apply_result-other t r name h = elim (Option-cases (lookup r.upstream_name t)) [
  | inl e ↦ rw (e, apply_result) refl
  | inr (up, e) ↦
      let up' = record up { servers = modify up.servers r.server_index (update_server r.ok) } in
      rw (e, apply_result) (ground (arith, lookup-insert r.upstream_name name up' t))
]

apply_result-hit :
    (t : Table Upstream) (r : ProbeResult) (up : Upstream)
    → lookup r.upstream_name t ≡ some up
    → r.server_index < length up.servers
    → lookup r.upstream_name (apply_result t r)
      ≡ some (record up { servers = modify up.servers r.server_index (update_server r.ok) })
unfolding apply_result
apply_result-hit t r up e h =
    let up' = record up { servers = modify up.servers r.server_index (update_server r.ok) } in
    rw (e, apply_result) (ground (arith, lookup-insert_self r.upstream_name up' t))

module _ (probe : Bytes → ℤ → Bool) where
  probe_servers-other :
      (servers : List UpstreamServer) (k : ℕ) (t : Table Upstream) (own name : Bytes)
      → eq_bytes own name ≡ false
      → lookup name (apply_results t (probe_servers probe own k servers)) ≡ lookup name t
  unfolding apply_results probe_servers
  probe_servers-other [] k t own name h = refl
  probe_servers-other (s ∷ rest) k t own name h =
      probe_servers-other rest (suc k) _ own name h ∙ apply_result-other t _ name h

  -- The servers before `k` are done.
  probe_servers-own :
      (servers done : List UpstreamServer) (k : ℕ) (t : Table Upstream) (name : Bytes)
      (up : Upstream)
      → k ≡ length done
      → lookup name t ≡ some (record up { servers = done ++ servers })
      → lookup name (apply_results t (probe_servers probe name k servers))
        ≡ some (record up { servers = done ++ map (probed probe) servers })
  unfolding apply_results probe_servers
  probe_servers-own [] done k t name up e h = h
  probe_servers-own (s ∷ rest) done k t name up e h =
      let r : ProbeResult = record {
        upstream_name = name;
        server_index = k;
        ok = probe s.host s.port;
      } in
      let up' = record up { servers = done ++ s ∷ rest } in
      let hit = apply_result-hit t r up' h (omega (arith, length-append done (s ∷ rest))) in
      let placed : modify (done ++ s ∷ rest) k (update_server r.ok)
          ≡ (done ++ probed probe s ∷ []) ++ rest =
        rw e (
          modify-append done rest s (update_server r.ok)
          ∙ sym (append_assoc done (probed probe s ∷ []) rest)) in
      probe_servers-own rest (done ++ probed probe s ∷ []) (suc k) (apply_result t r) name up
        (omega (arith, length-append done (probed probe s ∷ [])))
        (hit ∙ ap (λ x. some (record up { servers = x })) placed)
      ∙ ap (λ x. some (record up { servers = x }))
          (append_assoc done (probed probe s ∷ []) (map (probed probe) rest))

  lookup-probe_all :
      (own name : Bytes) (first : Upstream) (rest t : Table Upstream)
      → lookup name (apply_results t (probe_all probe ((own, first) ∷ rest)))
        ≡ lookup name (
            apply_results
              (apply_results t (probe_servers probe own 0 first.servers))
              (probe_all probe rest))
  unfolding probe_all
  lookup-probe_all own name first rest t =
      ap (lookup name)
        (apply_results-append t (probe_servers probe own 0 first.servers) (probe_all probe rest))

  probe_all-absent :
      (entries t : Table Upstream) (name : Bytes)
      → absent name entries ≡ true
      → lookup name (apply_results t (probe_all probe entries)) ≡ lookup name t
  unfolding probe_all apply_results
  probe_all-absent [] t name h = refl
  probe_all-absent ((own, up) ∷ rest) t name h =
      lookup-probe_all own name up rest t
      ∙ probe_all-absent rest _ name (ground arith)
      ∙ probe_servers-other up.servers 0 t own name (ground arith)

  probe_all-own :
      (entries t : Table Upstream) (name : Bytes) (up : Upstream)
      → distinct entries ≡ true
      → lookup name entries ≡ some up
      → lookup name t ≡ some up
      → lookup name (apply_results t (probe_all probe entries)) ≡ some (probed_upstream probe up)
  probe_all-own [] t name up d h e = unfold lookup in cc
  probe_all-own ((own, first) ∷ rest) t name up d h e = elim (Bool-cases (eq_bytes own name)) [
    | inl same ↦
        let here : own ≡ name = (eq_bytes_iff own name).0 same in
        let first_is : first ≡ up = unfold lookup in ground arith in
        let t' = apply_results t (probe_servers probe own 0 first.servers) in
        let gone : absent name rest ≡ true = rw (← here) (ground arith) in
        let own_done : lookup name t' ≡ some (probed_upstream probe up) =
          rw (here, first_is) (probe_servers-own up.servers [] 0 t name up refl e) in
        lookup-probe_all own name first rest t ∙ probe_all-absent rest t' name gone ∙ own_done
    | inr other ↦
        let later : lookup name rest ≡ some up = unfold lookup in ground arith in
        let t' = apply_results t (probe_servers probe own 0 first.servers) in
        lookup-probe_all own name first rest t
        ∙ probe_all-own rest t' name up (ground arith) later
            (probe_servers-other first.servers 0 t own name other ∙ e)
  ]

-- A server that is healthy exactly if its probe succeeded, and counts one failure more or none.
abbrev pub settled : (Bytes → ℤ → Bool) → UpstreamServer → UpstreamServer
settled probe s = record s {
  healthy = probe s.host s.port;
  consecutive_failures = if probe s.host s.port then 0 else s.consecutive_failures + 1;
}

probed-settled :
    (probe : Bytes → ℤ → Bool) (servers : List UpstreamServer)
    → map (probed probe) servers ≡ map (settled probe) servers
unfolding update_server
probed-settled probe [] = refl
probed-settled probe (s ∷ rest) =
    let head : probed probe s ≡ settled probe s = ground arith in
    cc (head, probed-settled probe rest)

-- After a round of health checks each configured upstream has the servers that it had, in order,
-- and each is healthy exactly if its probe succeeded; it counts one failure more if the probe
-- failed, and none if it succeeded. No two upstreams have one name.
pub check_health-settled :
    (probe : Bytes → ℤ → Bool) (m : UpstreamManager) (name : Bytes) (up : Upstream)
    → distinct m.config.upstreams ≡ true
    → lookup name m.config.upstreams ≡ some up
    → lookup name (check_health probe m).config.upstreams
      ≡ some (record up { servers = map (settled probe) up.servers })
unfolding check_health
check_health-settled probe m name up d h =
    probe_all-own probe m.config.upstreams m.config.upstreams name up d h h
    ∙ ap (λ x. some (record up { servers = x })) (probed-settled probe up.servers)
