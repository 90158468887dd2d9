-- ===== src/Tls/Credentials/Serving.antt =====
-- protos/ssl.c: what holds of a context of torque_ssl_ctx.
use libtorque.Base.{
  ℕ, ◌+◌, ◌≡◌, ◌⊎◌, inl, inr, refl, Bool, true, false, ◌||◌, not, Option, none, some, if_cases,
  arith,
}
use libtorque.Tls.Credentials.{
  RandBytes, filled, returns_zero, negative, Filetype, pem, asn1, Openssl, SslCtx, Made, made, null,
  free_ctx, is_filled, is_negative, is_given, with_key, use_files, verify_of, with_ca, blank,
  torque_ssl_ctx,
}

-- The key and the certificates of a context: those of the files, which OpenSSL took, unless neither
-- file is given.
abbrev pub HasFiles : Openssl → (certfile keyfile : Option ℕ) → SslCtx → Type 0
HasFiles o certfile keyfile c =
    ((certfile ≡ none) × (keyfile ≡ none) × (c.key ≡ none) × (c.chain ≡ none))
    ⊎ ((type : Filetype) × (c.key ≡ some (keyfile, type))
        × (c.chain ≡ some certfile)
        × (o.use_key keyfile type ≡ true)
        × (o.use_chain certfile ≡ true))

-- A context for a server, in the number of contexts that are held.
abbrev pub Serves : Openssl → (certfile keyfile cafile : Option ℕ) → Bool → ℕ → Made → Type 0
Serves o certfile keyfile cafile cliver held (made c held') =
    (held' ≡ held + 1)
    × (c.no_sslv2 ≡ true)
    × ((c.random_id ≡ true) ⊎ (o.rand_bytes ≡ returns_zero))
    × (c.trusted ≡ cafile)
    × (c.verify ≡ verify_of cliver)
    × HasFiles o certfile keyfile c
Serves o certfile keyfile cafile cliver held (null held') = held' ≡ held

module _ (o : Openssl) (certfile keyfile cafile : Option ℕ) (cliver : Bool) (held : ℕ) where
  -- A context before its files are read.
  abbrev Prepared : SslCtx → Type 0
  Prepared c =
      (c.no_sslv2 ≡ true)
      × ((c.random_id ≡ true) ⊎ (o.rand_bytes ≡ returns_zero))
      × (c.trusted ≡ cafile)

  abbrev Goal : Made → Type 0
  Goal m = Serves o certfile keyfile cafile cliver held m

  freed_Goal : Goal (free_ctx (held + 1))
  freed_Goal = omega arith

  neither :
      (keyfile certfile : Option ℕ)
      → not (is_given keyfile || is_given certfile) ≡ true
      → (certfile ≡ none) × (keyfile ≡ none)
  neither none none e = (refl, refl)
  neither none (some f) e = cc
  neither (some f) certs e = cc

  use_files-Goal :
      (c : SslCtx)
      → Prepared c
      → c.verify ≡ verify_of cliver
      → c.key ≡ none
      → c.chain ≡ none
      → Goal (use_files o certfile keyfile c (held + 1))
  use_files-Goal c p v no_key no_chain =
      if_cases Goal (not (is_given keyfile || is_given certfile)) _ _
        (λ e.
          let absent = neither keyfile certfile e in
          (refl, p.0, p.1, p.2, v, inl (absent.0, absent.1, no_key, no_chain)))
        (λ _.
          if_cases Goal (o.use_key keyfile pem) _ _ (λ e. chained pem e)
            (λ _.
              if_cases Goal (o.use_key keyfile asn1) _ _ (λ e. chained asn1 e) (λ _. freed_Goal)))
    where
      chained :
          (type : Filetype)
          → o.use_key keyfile type ≡ true
          → Goal (with_key o certfile keyfile type c (held + 1))
      chained type e =
          if_cases Goal (o.use_chain certfile) _ _
            (λ e'. (refl, p.0, p.1, p.2, v, inr (type, refl, refl, e, e'))) (λ _. freed_Goal)

-- A context of torque_ssl_ctx refuses SSLv2, trusts the given authorities, asks the peer for a
-- certificate exactly where that was asked for, and has the key and the certificates of the files,
-- unless neither is given. Its session id is random, unless RAND_bytes returned 0. Where there is no
-- context, none is held either.
pub torque_ssl_ctx-Serves :
    (o : Openssl) (certfile keyfile cafile : Option ℕ) (cliver : Bool) (held : ℕ)
    → Serves o certfile keyfile cafile cliver held
        (torque_ssl_ctx o certfile keyfile cafile cliver held)
unfolding torque_ssl_ctx
torque_ssl_ctx-Serves o certfile keyfile cafile cliver held =
    if_cases (Goal' cafile) (not o.new_works) _ _ (λ _. refl)
      (λ _.
        if_cases (Goal' cafile) (not o.no_sslv2_set) _ _ (λ _. omega arith)
          (λ _.
            if_cases (Goal' cafile) (is_negative o.rand_bytes) _ _ (λ _. omega arith)
              (λ e.
                if_cases (Goal' cafile) (not o.session_id_works) _ _ (λ _. omega arith)
                  (λ _. by_ca cafile (random o.rand_bytes e)))))
  where
    Goal' : Option ℕ → Made → Type 0
    Goal' ca = Serves o certfile keyfile ca cliver held

    fresh : SslCtx
    fresh = record blank { no_sslv2 = true; random_id = is_filled o.rand_bytes }

    random : (r : RandBytes) → is_negative r ≡ false → (is_filled r ≡ true) ⊎ (r ≡ returns_zero)
    random filled e = inl refl
    random returns_zero e = inr refl
    random negative e = cc

    by_ca :
        (ca : Option ℕ)
        → (is_filled o.rand_bytes ≡ true) ⊎ (o.rand_bytes ≡ returns_zero)
        → Goal' ca (with_ca o certfile keyfile ca cliver fresh (held + 1))
    by_ca none random_or =
        use_files-Goal o certfile keyfile none cliver held
          (record fresh { verify = verify_of cliver }) (refl, random_or, refl) refl refl refl
    by_ca (some ca) random_or =
        if_cases (Goal' (some ca)) (not (o.load_ca ca)) _ _ (λ _. omega arith)
          (λ _.
            use_files-Goal o certfile keyfile (some ca) cliver held
              (record fresh { verify = verify_of cliver; trusted = some ca })
              (refl, random_or, refl) refl refl refl)
