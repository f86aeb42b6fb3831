-- ===== src/Entry/Safe.antt =====
-- How main ends, and what its servers offer.
use raft_based_mysql_cluster.Prelude.{
  lit, Bool-cases, inl, inr, List, [], ◌∷◌, ◌≡◌, ◌↔◌, ◌≢◌, refl, sym, subst, if◌then◌else◌,
}
use raft_based_mysql_cluster.Go.{Result, ok, err, waiting, panic, Go, pure, try, branch}
use raft_based_mysql_cluster.Reconciler.{setup_with_manager, group_version}
use raft_based_mysql_cluster.Entry.{
  Flags, TlsConfig, disable_http2, tls_opts, manager_options, metrics_server_options,
  ManagerOptions, Exit, died, returned, exit_1, Runtime, main,
}

-- The configuration of a server after its options.
abbrev configured : List (TlsConfig → TlsConfig) → TlsConfig → TlsConfig
configured [] c = c
configured (f ∷ fs) c = configured fs (f c)

-- The options that the flags ask for: the addresses and the election of a leader are those of the
-- flags. The webhook server and the metrics server offer the same protocols, without --enable-http2
-- HTTP/1.1 only, otherwise what they offer by themselves. The metrics are served with TLS exactly if
-- who asks for them is authenticated and authorized, and both as --metrics-secure says.
abbrev pub AsAsked : Flags → ManagerOptions → Type 0
AsAsked flags options =
    (options.health_probe_bind_address ≡ flags.probe_addr)
    × (options.leader_election ≡ flags.enable_leader_election)
    × (options.leader_election_id ≡ lit "bf19fbca.ryansu.com")
    × (options.metrics.bind_address ≡ flags.metrics_addr)
    × (options.metrics.secure_serving ≡ flags.secure_metrics)
    × (options.metrics.authenticated ≡ flags.secure_metrics)
    × ((c : TlsConfig)
        → let offered = if flags.enable_http2 then c.next_protos else lit "http/1.1" ∷ [] in
          ((configured options.webhook_tls c).next_protos ≡ offered)
          × ((configured options.metrics.tls c).next_protos ≡ offered))

options-AsAsked : (flags : Flags) → AsAsked flags (manager_options flags)
unfolding manager_options metrics_server_options tls_opts disable_http2
options-AsAsked flags = elim (Bool-cases flags.secure_metrics) [
  | inl secure ↦ rw secure (
    refl,
    refl,
    refl,
    refl,
    refl,
    refl,
    λ c. elim (Bool-cases flags.enable_http2) [
      | inl on ↦ rw on (refl, refl)
      | inr off ↦ rw off (refl, refl)
    ],
  )
  | inr plain ↦ rw plain (
    refl,
    refl,
    refl,
    refl,
    refl,
    refl,
    λ c. elim (Bool-cases flags.enable_http2) [
      | inl on ↦ rw on (refl, refl)
      | inr off ↦ rw off (refl, refl)
    ],
  )
]

module _ {S : Type 0} (runtime : Runtime S) where
  passed :
      {A : Type 0} (stage : Go S A) (failure : Exit) (rest : A → Go S Exit) (s : S)
      → failure ≢ returned
      → ((try stage rest (λ _. pure failure) s).0 ≡ ok returned)
        ↔ ((a : A) × (s' : S) × (stage s ≡ (ok a, s')) × ((rest a s').0 ≡ ok returned))
  unfolding try pure
  passed {A} stage failure rest s bad = go (stage s).0 (stage s).1
    where
      after : Result A × S → Result Exit
      after o = (branch o.0 rest (λ _. pure failure) o.1).0

      go :
          (r : Result A) (t : S)
          → (after (r, t) ≡ ok returned) ↔ (
              (a : A) × (s' : S) × (◌≡◌ {A = Result A × S} (r, t) (ok a, s'))
              × ((rest a s').0 ≡ ok returned))
      go (ok a) t =
          (λ h. (a, t, refl, h), λ (b, s', e, h). subst (λ o. after o ≡ ok returned) (sym e) h)
      go (err e) t =
          (λ h. absurd (bad (cc h)), λ (b, s', e, h). subst (λ o. after o ≡ ok returned) (sym e) h)
      go waiting t = (λ h. cc h, λ (b, s', e, h). subst (λ o. after o ≡ ok returned) (sym e) h)
      go panic t = (λ h. cc h, λ (b, s', e, h). subst (λ o. after o ≡ ok returned) (sym e) h)

  ended : (s : S) → (pure returned s).0 ≡ ok returned
  unfolding pure
  ended s = refl

  -- One after the other, the configuration is found, the manager is made with the options, the
  -- controller is registered for MysqlCluster and the pods that it owns, both checks are added, and
  -- the manager runs and stops without an error.
  abbrev pub IsStarted : Flags → S → Type 0
  IsStarted flags s =
      (config : runtime.Config) × (s0 : S) × (runtime.get_config s ≡ (ok config, s0))
      × (mgr : runtime.Manager) × (s1 : S) × (runtime.new_manager config (manager_options flags) s0
          ≡ (ok mgr, s1))
      × (s2 : S) × (runtime.complete mgr
            (record {
              api_version = lit "apps.ryansu.com/v1";
              kind = lit "MysqlCluster";
              owned_kinds = lit "Pod" ∷ [];
            })
            s1
          ≡ (ok tt, s2))
      × (s3 : S) × (runtime.add_healthz_check mgr (lit "healthz") s2 ≡ (ok tt, s3))
      × (s4 : S) × (runtime.add_readyz_check mgr (lit "readyz") s3 ≡ (ok tt, s4))
      × (s5 : S) × (runtime.start mgr s4 ≡ (ok tt, s5))

  -- main ends without an exit exactly if the configuration is found, the manager is made, the
  -- controller is registered for MysqlCluster and the pods that it owns, both checks are added and
  -- the manager runs and stops without an error, in this order. The options of the manager are what
  -- the flags ask for: the addresses and the election of a leader are those of the flags, both
  -- servers offer HTTP/1.1 only unless HTTP/2 is enabled, and the metrics have TLS and ask who reads
  -- them exactly if the flag says that they are secure.
  pub main_iff :
      (flags : Flags) (s : S)
      → (((main runtime flags s).0 ≡ ok returned) ↔ IsStarted flags s)
        × AsAsked flags (manager_options flags)
  unfolding main setup_with_manager group_version
  main_iff flags s = (
    (
      λ h.
          let (config, s0, e0, h0) = (passed _ died _ s (λ e. cc e)).0 h in
          let (mgr, s1, e1, h1) = (passed _ (exit_1 _) _ s0 (λ e. cc e)).0 h0 in
          let (u2, s2, e2, h2) = (passed _ (exit_1 _) _ s1 (λ e. cc e)).0 h1 in
          let (u3, s3, e3, h3) = (passed _ (exit_1 _) _ s2 (λ e. cc e)).0 h2 in
          let (u4, s4, e4, h4) = (passed _ (exit_1 _) _ s3 (λ e. cc e)).0 h3 in
          let (u5, s5, e5, h5) = (passed _ (exit_1 _) _ s4 (λ e. cc e)).0 h4 in
          (config, s0, e0, mgr, s1, e1, s2, e2, s3, e3, s4, e4, s5, e5),
      λ (config, s0, e0, mgr, s1, e1, s2, e2, s3, e3, s4, e4, s5, e5).
          let h5 = (passed _ (exit_1 _) _ s4 (λ e. cc e)).1 (tt, s5, e5, ended s5) in
          let h4 = (passed _ (exit_1 _) _ s3 (λ e. cc e)).1 (tt, s4, e4, h5) in
          let h3 = (passed _ (exit_1 _) _ s2 (λ e. cc e)).1 (tt, s3, e3, h4) in
          let h2 = (passed _ (exit_1 _) _ s1 (λ e. cc e)).1 (tt, s2, e2, h3) in
          let h1 = (passed _ (exit_1 _) _ s0 (λ e. cc e)).1 (mgr, s1, e1, h2) in
          (passed _ died _ s (λ e. cc e)).1 (config, s0, e0, h1),
    ),
    options-AsAsked flags,
  )
