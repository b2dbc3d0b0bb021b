-- ===== src/Auth/Login/Upgrade.antt =====
-- That `Login` of internal/auth/auth.go may rewrite an old password without locking its owner out.
use pet.Base.{
  ◌≡◌, ◌⊎◌, refl, sym, ap, subst, ◌∙◌, inl, inr, ℕ, String, Bool, true, false, Option, none, some,
  str_eq, arith, Bool-cases, Option-cases,
}
use pet.Auth.Limit.{Units, IpLimiter}
use pet.Auth.Login.{
  Site, FoundUser, no_rows, db_error, user, LoginReq, Request, Response, Server, client_ip,
  is_bcrypt_hash, check_password, upgrade, issue_token, credentials, pass_limit, login,
}

-- What a database, a token store and bcrypt document: an update that succeeds stores the hash,
-- nothing else changes a password, and a hash that bcrypt made is one and fits its password.
pub record IsRegular (S : Site) : Type 0 where
  pub password_of : S.World → String → FoundUser
  pub find_answers : (n : String) (w : S.World) → (S.find_user n w).0 ≡ password_of w n
  pub find_reads :
      (m n : String) (w : S.World) → password_of (S.find_user m w).1 n ≡ password_of w n
  pub generate_reads :
      (p n : String) (w : S.World) → password_of (S.generate p w).1 n ≡ password_of w n
  pub issue_reads : (m n : String) (w : S.World) → password_of (S.issue m w).1 n ≡ password_of w n
  pub generate_fits :
      (p h : String) (w : S.World)
      → (S.generate p w).0 ≡ some h
      → (is_bcrypt_hash S h ≡ true) × (S.same_hash h p ≡ true)
  pub update_stores :
      (uid : ℕ) (h n p : String) (w : S.World)
      → password_of w n ≡ user uid p
      → (S.update_password uid h w).0 ≡ true
      → password_of (S.update_password uid h w).1 n ≡ user uid h
  pub update_fails :
      (uid : ℕ) (h n : String) (w : S.World)
      → (S.update_password uid h w).0 ≡ false
      → password_of (S.update_password uid h w).1 n ≡ password_of w n

module _ (S : Site) (g : IsRegular S) where
  -- The user has a password that `given` is accepted for.
  abbrev Accepts : S.World → String → String → Type 0
  Accepts w name given =
      (uid : ℕ) × (p : String) × (g.password_of w name ≡ user uid p)
      × ((check_password S p given).0 ≡ true)

  hash_accepted :
      (h given : String)
      → is_bcrypt_hash S h ≡ true
      → S.same_hash h given ≡ true
      → (check_password S h given).0 ≡ true
  unfolding check_password
  hash_accepted h given b e = rw b e

  upgrade-Accepts :
      (needs : Bool) (uid : ℕ) (name given p : String) (w : S.World)
      → g.password_of w name ≡ user uid p
      → (check_password S p given).0 ≡ true
      → Accepts (upgrade S needs uid given w) name given
  unfolding upgrade
  upgrade-Accepts false uid name given p w e ok = (uid, p, e, ok)
  upgrade-Accepts true uid name given p w e ok = elim (Option-cases (S.generate given w).0) [
    | inl f ↦ rw (f, upgrade) (uid, p, g.generate_reads given name w ∙ e, ok)
    | inr (h, f) ↦
        let w' = (S.generate given w).1 in
        let e' : g.password_of w' name ≡ user uid p = g.generate_reads given name w ∙ e in
        let (b, fits) = g.generate_fits given h w f in
        elim (Bool-cases (S.update_password uid h w').0) [
          | inl t ↦
              rw (f, upgrade)
                (uid, h, g.update_stores uid h name p w' e' t, hash_accepted h given b fits)
          | inr t ↦ rw (f, upgrade) (uid, p, g.update_fails uid h name w' t ∙ e', ok)
        ]
  ]

  issue_world :
      (req : LoginReq) (l : Option IpLimiter) (o : Option String × S.World)
      → (issue_token S req l o).1.world ≡ o.1
  unfolding issue_token
  issue_world req l (none, w) = refl
  issue_world req l (some token, w) = refl

  issue_status :
      (req : LoginReq) (l : Option IpLimiter) (o : Option String × S.World)
      → ((issue_token S req l o).0.status ≡ 200) ⊎ ((issue_token S req l o).0.status ≡ 503)
  unfolding issue_token
  issue_status req l (none, w) = inr refl
  issue_status req l (some token, w) = inl refl

  -- After a login that was granted the password is accepted.
  credentials-Accepts :
      (req : LoginReq) (l : Option IpLimiter) (f : FoundUser × S.World)
      → g.password_of f.1 req.username ≡ f.0
      → (credentials S req l f).0.status ≡ 200
      → Accepts (credentials S req l f).1.world req.username req.password
  unfolding credentials
  credentials-Accepts req l (no_rows, w) at e = absurd (omega (arith, e))
  credentials-Accepts req l (db_error, w) at e = absurd (omega (arith, e))
  credentials-Accepts req l (user uid p, w) at e =
      elim (Bool-cases (check_password S p req.password).0) [
        | inr bad ↦
            let stops : (credentials S req l (user uid p, w)).0.status ≡ 401 = rw bad refl in
            absurd (omega (arith, e, stops))
        | inl ok ↦
            let w' = upgrade S (check_password S p req.password).1 uid req.password w in
            let (uid', q, at', ok') =
              upgrade-Accepts (check_password S p req.password).1 uid req.username req.password p w
                at ok in
            let same = issue_world req l (S.issue req.username w') in
            rw ok (
              uid',
              q,
              ap (λ x. g.password_of x req.username) same
                  ∙ g.issue_reads req.username req.username w'
                  ∙ at',
              ok',
            )
      ]

  Accepts-credentials :
      (req : LoginReq) (l : Option IpLimiter) (f : FoundUser × S.World) (uid : ℕ) (p : String)
      → f.0 ≡ user uid p
      → (check_password S p req.password).0 ≡ true
      → ((credentials S req l f).0.status ≡ 200) ⊎ ((credentials S req l f).0.status ≡ 503)
  unfolding credentials
  Accepts-credentials req l (f, w) uid p e ok =
      let w' = upgrade S (check_password S p req.password).1 uid req.password w in
      rw (e, ok) (issue_status req l (S.issue req.username w'))

  -- The answer of `login` to a request that reaches the database.
  login_reaches :
      (u : Units) (now : ℕ) (r : Request LoginReq) (s : Server S) (req : LoginReq)
      → str_eq r.method "POST" ≡ true
      → (pass_limit S u now (client_ip r) s.limiter).0 ≡ true
      → r.body ≡ some req
      → login S u now r s
        ≡ credentials S req
            (pass_limit S u now (client_ip r) s.limiter).1
            (S.find_user req.username s.world)
  unfolding login
  login_reaches u now r s req posts passes parsed = rw (posts, passes, parsed) refl

  login_granted :
      (u : Units) (now : ℕ) (r : Request LoginReq) (s : Server S)
      → (login S u now r s).0.status ≡ 200
      → (str_eq r.method "POST" ≡ true)
        × ((pass_limit S u now (client_ip r) s.limiter).0 ≡ true)
        × (req : LoginReq) × (r.body ≡ some req)
  unfolding login
  login_granted u now r s e = elim (Bool-cases (str_eq r.method "POST")) [
    | inr other ↦
        let stops : (login S u now r s).0.status ≡ 405 = rw other refl in
        absurd (omega (arith, e, stops))
    | inl posts ↦ elim (Bool-cases (pass_limit S u now (client_ip r) s.limiter).0) [
      | inr limited ↦
          let stops : (login S u now r s).0.status ≡ 429 = rw (posts, limited) refl in
          absurd (omega (arith, e, stops))
      | inl passes ↦ elim (Option-cases r.body) [
        | inl bad ↦
            let stops : (login S u now r s).0.status ≡ 400 = rw (posts, passes, bad) refl in
            absurd (omega (arith, e, stops))
        | inr (req, parsed) ↦ (posts, passes, req, parsed)
      ]
    ]
  ]

  -- If the database, the token store and bcrypt do what they document, then a login that was
  -- granted is never refused for its password when the same request is made again and passes the
  -- limit, though the first may have replaced an old password by a hash: the answer is a token, or
  -- that the token store is unavailable.
  pub login-login :
      (u : Units) (now later : ℕ) (r : Request LoginReq) (s : Server S)
      → (login S u now r s).0.status ≡ 200
      → (pass_limit S u later (client_ip r) (login S u now r s).1.limiter).0 ≡ true
      → ((login S u later r (login S u now r s).1).0.status ≡ 200)
        ⊎ ((login S u later r (login S u now r s).1).0.status ≡ 503)
  login-login u now later r s e again =
      let (posts, passes, req, parsed) = login_granted u now r s e in
      let l = (pass_limit S u now (client_ip r) s.limiter).1 in
      let f = S.find_user req.username s.world in
      let ran = login_reaches u now r s req posts passes parsed in
      let s' = (login S u now r s).1 in
      let (uid, p, at, ok) =
        subst (λ (o : Response × Server S). Accepts o.1.world req.username req.password) (sym ran)
          (credentials-Accepts req l f
            (g.find_reads req.username req.username s.world
              ∙ sym (g.find_answers req.username s.world))
            (ap (λ (o : Response × Server S). o.0.status) (sym ran) ∙ e)) in
      let l' = (pass_limit S u later (client_ip r) s'.limiter).1 in
      let f' = S.find_user req.username s'.world in
      subst (λ (o : Response × Server S). (o.0.status ≡ 200) ⊎ (o.0.status ≡ 503))
        (sym (login_reaches u later r s' req posts again parsed))
        (Accepts-credentials req l' f' uid p (g.find_answers req.username s'.world ∙ at) ok)
