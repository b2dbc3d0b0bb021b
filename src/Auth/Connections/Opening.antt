-- ===== src/Auth/Connections/Opening.antt =====
-- internal/auth/ws.go and origin.go: which requests `ServerWs` turns into a connection, and the list
-- of origins. The token store, with its world, is a function.
use pet.Base.{
  ℕ, ◌≡◌, ◌≢◌, ◌↔◌, ◌⊎◌, refl, sym, ◌∙◌, inl, inr, String, Bool, true, false, not, ◌||◌, List, [],
  ◌∷◌, some, if◌then◌else◌, str_eq, arith, Bool-cases, Option-cases,
}
use mathlib.Core.Bool.{false≢true}
use text.Mathlib.TextEquality.{eq_iff}
use pet.Auth.Login.{Checked, invalid_token, store_error, checked}
use pet.Auth.Connections.{Urls, is_allowed, check_origin}

-- The answers before `readLoop`; `upgrade_failed` is answered by the upgrader.
pub data Opening : Type 0 where
  denied : ℕ → String → Opening
  upgrade_failed : Opening
  opened : String → Opening

-- What follows on `Lookup`, with `tokenErr`.
unfoldable pub looked_up : Bool → Checked → Opening
looked_up upgrades invalid_token = denied 401 "invalid token"
looked_up upgrades store_error = denied 503 "token store unavailable"
looked_up true (checked username) = opened username
looked_up false (checked username) = upgrade_failed

module _ {W : Type 0} (u : Urls) (allowed_origins : List String) where
  -- The beginning of `ServerWs`.
  unfoldable pub open_ws : (W → Checked × W) → Bool → String → String → W → Opening × W
  open_ws lookup upgrades origin host w =
      if not (check_origin u allowed_origins origin host)
      then (denied 403 "origin not allowed", w)
      else (let (c, w') = lookup w in (looked_up upgrades c, w'))

-- `ParseOrigins`, where `split` cuts at the commas and `trim_space` is of `strings`.
unfoldable pub keep_origins : (String → String) → (String → String) → List String → List String
keep_origins trim_space trim_right [] = []
keep_origins trim_space trim_right (o ∷ os) =
    let rest = keep_origins trim_space trim_right os in
    let p = trim_right (trim_space o) in if not (str_eq p "") then p ∷ rest else rest

unfoldable pub parse_origins :
    (String → List String) → (String → String) → (String → String) → String → List String
parse_origins split trim_space trim_right v = keep_origins trim_space trim_right (split v)

-- Some origin of the list is the given one, but for the case of letters and slashes at its end.
abbrev pub Admits : Urls → List String → String → Type 0
Admits u [] origin = ⊥
Admits u (o ∷ os) origin = (u.equal_fold (u.trim_right o) origin ≡ true) ⊎ Admits u os origin

-- The header is missing, or it names the host of the request when there is no list, or one of the
-- list.
abbrev pub IsAllowedOrigin : Urls → List String → String → String → Type 0
IsAllowedOrigin u os origin host =
    (origin ≡ "")
    ⊎ ((os ≡ []) × (h : String) × (u.host_of origin ≡ some h) × (u.equal_fold h host ≡ true))
    ⊎ ((os ≢ []) × Admits u os origin)

is_allowed-Admits :
    (u : Urls) (os : List String) (origin : String)
    → (is_allowed u os origin ≡ true) ↔ Admits u os origin
unfolding is_allowed
is_allowed-Admits u [] origin = (λ e. ground (arith, e), λ h. elim h [ ])
is_allowed-Admits u (o ∷ os) origin =
    let rest = is_allowed-Admits u os origin in
    elim (Bool-cases (u.equal_fold (u.trim_right o) origin)) [
      | inl e ↦ (λ h. inl e, λ h. rw e refl)
      | inr e ↦ (
        λ h. inr (rest.0 (ground (arith, e, h))),
        λ h. elim h [ inl q ↦ rw q refl | inr q ↦ rw (e, ◌||◌) (rest.1 q) ],
      )
    ]

IsAllowedOrigin-check_origin :
    (u : Urls) (os : List String) (origin host : String)
    → IsAllowedOrigin u os origin host
    → check_origin u os origin host ≡ true
unfolding check_origin
IsAllowedOrigin-check_origin u [] origin host (inl e) = ground (arith, (eq_iff origin "").1 e)
IsAllowedOrigin-check_origin u (o ∷ os) origin host (inl e) = ground (arith, (eq_iff origin "").1 e)
IsAllowedOrigin-check_origin u [] origin host (inr (inl (n, h, p, q))) = ground (arith, p, q)
IsAllowedOrigin-check_origin u (o ∷ os) origin host (inr (inl (n, h, p, q))) = cc n
IsAllowedOrigin-check_origin u [] origin host (inr (inr (n, a))) = elim a [ ]
IsAllowedOrigin-check_origin u (o ∷ os) origin host (inr (inr (n, a))) =
    ground (arith, (is_allowed-Admits u (o ∷ os) origin).1 a)

check_origin-IsAllowedOrigin :
    (u : Urls) (os : List String) (origin host : String)
    → check_origin u os origin host ≡ true
    → IsAllowedOrigin u os origin host
unfolding check_origin
check_origin-IsAllowedOrigin u [] origin host e = elim (Bool-cases (str_eq origin "")) [
  | inl q ↦ inl ((eq_iff origin "").0 q)
  | inr q ↦ elim (Option-cases (u.host_of origin)) [
    | inl p ↦ ground (arith, e, q, p)
    | inr (h, p) ↦ inr (inl (refl, h, p, ground (arith, e, q, p)))
  ]
]
check_origin-IsAllowedOrigin u (o ∷ os) origin host e = elim (Bool-cases (str_eq origin "")) [
  | inl q ↦ inl ((eq_iff origin "").0 q)
  | inr q ↦ inr (inr (λ n. cc n, (is_allowed-Admits u (o ∷ os) origin).0 (ground (arith, e, q))))
]

looked_up-opened :
    (upgrades : Bool) (c : Checked) (username : String)
    → (looked_up upgrades c ≡ opened username) ↔ ((upgrades ≡ true) × (c ≡ checked username))
unfolding looked_up
looked_up-opened true invalid_token username = (λ e. cc e, λ h. cc (h.1))
looked_up-opened false invalid_token username = (λ e. cc e, λ h. cc)
looked_up-opened true store_error username = (λ e. cc e, λ h. cc (h.1))
looked_up-opened false store_error username = (λ e. cc e, λ h. cc)
looked_up-opened true (checked name) username = (λ e. (refl, cc e), λ h. cc (h.1))
looked_up-opened false (checked name) username = (λ e. cc e, λ h. ground (arith, h.0))

-- `ServerWs` opens a connection for a user exactly when the origin of the request is allowed, the
-- request can be upgraded and the token belongs to the user; if the origin is not allowed, the
-- token store is not asked.
pub open_ws-IsAllowedOrigin :
    {W : Type 0} (u : Urls) (os : List String) (lookup : W → Checked × W) (upgrades : Bool)
    (origin host username : String) (w : W)
    → (((open_ws u os lookup upgrades origin host w).0 ≡ opened username) ↔ (
        IsAllowedOrigin u os origin host × (upgrades ≡ true) × ((lookup w).0 ≡ checked username)))
      × (¬ IsAllowedOrigin u os origin host → (open_ws u os lookup upgrades origin host w).1 ≡ w)
unfolding open_ws
open_ws-IsAllowedOrigin u os lookup upgrades origin host username w =
    let after = looked_up-opened upgrades (lookup w).0 username in
    elim (Bool-cases (check_origin u os origin host)) [
      | inl e ↦
          let allowed = check_origin-IsAllowedOrigin u os origin host e in
          rw e (
            (λ h. let (a, b) = after.0 h in (allowed, a, b), λ (_, a, b). after.1 (a, b)),
            λ h. elim (h allowed) [ ],
          )
      | inr e ↦
          let forbidden : ¬ IsAllowedOrigin u os origin host =
            λ a. false≢true (sym e ∙ IsAllowedOrigin-check_origin u os origin host a) in
          rw e ((λ h. cc h, λ h. elim (forbidden h.0) [ ]), λ h. refl)
    ]
