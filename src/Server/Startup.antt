-- ===== src/Server/Startup.antt =====
-- What a start of src/server/mod.rs may open, and which stages it reports.
use liuzx_skf.Common.{
  Bool-cases, Result, Result-cases, ok, err, Text, text_eq, ◌≡◌, refl, ◌⊎◌, inl, inr, Bool, true,
  false, ◌&&◌, not, Option, none, some, List, [], ◌∷◌, arith,
}
use liuzx_skf.Config.{SkfConfig, allows_remote, resolve_lib_path}
use liuzx_skf.Server.{
  ServerOptions, StartupStage, config, provider, bind, Machine, Started, StartupError, stage,
  resolve_bind_addr, failed, listening, bind_socket, parse_http, bind_with_progress,
}

abbrev pub to_provider : List StartupStage
to_provider = config ∷ provider ∷ []

abbrev pub to_bind : List StartupStage
to_bind = config ∷ provider ∷ bind ∷ []

module _ {A W : Type 0} (m : Machine A W) (remote_env : Option Text) (opts : ServerOptions) where
  -- The start failed before a socket was opened: the stages that it had reported, the stage of the
  -- error, and the state by then.
  abbrev pub Quiet : List StartupStage → StartupStage → W → Started A W → Type 0
  Quiet stages at w r =
      (r.stages ≡ stages)
      × ((e : StartupError) × (r.result ≡ err e) × (stage e ≡ at))
      × (r.world ≡ w)

  -- The name to listen on has no address, or one that is not the machine's own, without an opt-in.
  abbrev pub Barred : SkfConfig → Type 0
  Barred cfg =
      ((e : Text) × (resolve_bind_addr m opts.ws_addr ≡ err e))
      ⊎ ((a : A) × (resolve_bind_addr m opts.ws_addr ≡ ok a)
          × (m.is_loopback a ≡ false)
          × (allows_remote cfg remote_env ≡ false))

  -- The start went on to open a socket, on an address of the machine itself or with an opt-in. It
  -- succeeds with the address that the socket got, and fails at the stage `Bind`.
  abbrev pub Listened : SkfConfig → Option A → W → Started A W → Type 0
  Listened cfg http_addr w r =
      (a : A) × (resolve_bind_addr m opts.ws_addr ≡ ok a)
      × ((m.is_loopback a ≡ true) ⊎ (allows_remote cfg remote_env ≡ true))
      × (r.stages ≡ to_bind)
      × (r.world ≡ (m.listen a w).1)
      × (((bound : A) × ((m.listen a w).0 ≡ ok (ok bound))
            × (r.result ≡ ok (record { ws_addr = bound; http_addr = http_addr }, cfg)))
          ⊎ (((d : Text) × (((m.listen a w).0 ≡ err d) ⊎ ((m.listen a w).0 ≡ ok (err d))))
              × ((e : StartupError) × (r.result ≡ err e) × (stage e ≡ bind))))

  listening-Listened :
      (cfg : SkfConfig) (http_addr : Option A) (a : A) (r : Result Text (Result Text A) × W)
      → ((listening m cfg http_addr a r).stages ≡ to_bind)
        × ((listening m cfg http_addr a r).world ≡ r.1)
        × (((bound : A) × (r.0 ≡ ok (ok bound))
              × ((listening m cfg http_addr a r).result
                  ≡ ok (record { ws_addr = bound; http_addr = http_addr }, cfg)))
            ⊎ (((d : Text) × ((r.0 ≡ err d) ⊎ (r.0 ≡ ok (err d))))
                × ((e : StartupError) × ((listening m cfg http_addr a r).result ≡ err e)
                    × (stage e ≡ bind))))
  unfolding listening failed stage
  listening-Listened cfg http_addr a (err e, w) = (refl, refl, inr ((e, inl refl), (_, refl, refl)))
  listening-Listened cfg http_addr a (ok (err e), w) =
      (refl, refl, inr ((e, inr refl), (_, refl, refl)))
  listening-Listened cfg http_addr a (ok (ok b), w) = (refl, refl, inl (b, refl, refl))

  failed-Quiet :
      (stages : List StartupStage) (e : StartupError) (w : W)
      → Quiet stages (stage e) w (failed m stages e w)
  unfolding failed
  failed-Quiet stages e w = (refl, (e, refl, refl), refl)

  gate : (b c : Bool) → not b && not c ≡ false → (b ≡ true) ⊎ (c ≡ true)
  gate true c h = inl refl
  gate false true h = inr refl
  gate false false h = cc

  shut : (b c : Bool) → not b && not c ≡ true → (b ≡ false) × (c ≡ false)
  shut true c h = cc
  shut false true h = cc
  shut false false h = (refl, refl)

  bind_socket-cases :
      (cfg : SkfConfig) (http_addr : Option A) (w : W)
      → (Barred cfg × Quiet to_bind bind w (bind_socket m remote_env opts cfg http_addr w))
        ⊎ Listened cfg http_addr w (bind_socket m remote_env opts cfg http_addr w)
  unfolding bind_socket failed stage
  bind_socket-cases cfg http_addr w = elim (Result-cases (resolve_bind_addr m opts.ws_addr)) [
    | inr (e, h) ↦ inl (inl (e, h), rw (bind_socket, h) (failed-Quiet to_bind _ _))
    | inl (a, h) ↦ elim (Bool-cases (not (m.is_loopback a) && not (allows_remote cfg remote_env))) [
      | inl b ↦ inl (
        let (own, allowed) = shut (m.is_loopback a) (allows_remote cfg remote_env) b in
            inr (a, h, own, allowed),
        rw (bind_socket, h, b) (failed-Quiet to_bind _ _),
      )
      | inr b ↦
          let (stages, world, result) = listening-Listened cfg http_addr a (m.listen a w) in
          inr (
            a,
            h,
            gate (m.is_loopback a) (allows_remote cfg remote_env) b,
            rw (bind_socket, h, b) stages,
            rw (bind_socket, h, b) world,
            rw (bind_socket, h, b) result,
          )
    ]
  ]

  parse_http-stage :
      (addr : Option Text) (e : StartupError) → parse_http m addr ≡ err e → stage e ≡ config
  unfolding parse_http stage
  parse_http-stage none e h = cc
  parse_http-stage (some addr) e h = ground arith

  -- How a start that begins with the state `w` ends.
  abbrev pub Ended : W → Started A W → Type 0
  Ended w r =
      (((e : Text) × (m.load opts.config_path ≡ err e)) × Quiet (config ∷ []) config w r)
      ⊎ ((cfg : SkfConfig) × (m.load opts.config_path ≡ ok cfg)
          × ((((e : Text) × (resolve_lib_path m.env m.debug_list cfg.libs cfg.default m.os ≡ err e))
                × Quiet to_provider provider w r)
              ⊎ ((path : Text) × (resolve_lib_path m.env m.debug_list cfg.libs cfg.default m.os
                    ≡ ok path)
                  × ((((e : StartupError) × (parse_http m opts.http_addr ≡ err e))
                        × Quiet to_provider config (m.build cfg w) r)
                      ⊎ ((http_addr : Option A) × (parse_http m opts.http_addr ≡ ok http_addr)
                          × ((Barred cfg × Quiet to_bind bind (m.build cfg w) r)
                              ⊎ Listened cfg http_addr (m.build cfg w) r))))))

  -- A start reports `Config`, then `Provider` once the configuration is read, then `Bind` once the
  -- default provider has a path and the HTTP address, if one is given, is well formed; with the path
  -- the provider is built. Where it fails before a socket is opened, its error has the stage that it
  -- reported last, but for an HTTP address that is not well formed, which is an error of the
  -- configuration after `Provider` was reported. After `Bind` it leaves the socket alone exactly
  -- when the configured name has no address, or its first address is not a loopback one and the
  -- operator did not opt in. Otherwise it opens a socket on that address, and succeeds with the
  -- address that the socket got, or fails with an error of the stage `Bind` if there is none.
  pub bind_with_progress_lem : (w : W) → Ended w (bind_with_progress m remote_env opts w)
  unfolding bind_with_progress failed stage
  bind_with_progress_lem w = elim (Result-cases (m.load opts.config_path)) [
    | inr (e, h) ↦ inl ((e, h), rw (bind_with_progress, h) (failed-Quiet (config ∷ []) _ _))
    | inl (cfg, h) ↦ inr (
      cfg,
      h,
      elim (Result-cases (resolve_lib_path m.env m.debug_list cfg.libs cfg.default m.os)) [
        | inr (e, j) ↦ inl ((e, j), rw (bind_with_progress, h, j) (failed-Quiet to_provider _ _))
        | inl (path, j) ↦ inr (
          path,
          j,
          elim (Result-cases (parse_http m opts.http_addr)) [
            | inr (e, k) ↦ inl (
              (e, k),
              rw (bind_with_progress, h, j, k)
                  (refl, (e, refl, parse_http-stage opts.http_addr e k), refl),
            )
            | inl (http_addr, k) ↦ inr (
              http_addr,
              k,
              rw (bind_with_progress, h, j, k) (bind_socket-cases cfg http_addr (m.build cfg w)),
            )
          ],
        )
      ],
    )
  ]
