-- ===== src/Auth/Login/Decks.antt =====
-- When `Savedecks` of internal/auth/auth.go saves a deck.
use pet.Base.{
  ◌≡◌, ◌⊎◌, ◌↔◌, refl, sym, ap, subst, ◌∙◌, inl, inr, ℕ, String, Bool, true, false, ◌||◌, List,
  Option, none, some, str_eq, arith, Bool-cases,
}
use text.Mathlib.TextEquality.{eq_iff}
use pet.Deck.{Catalog, Error, validate_deck}
use pet.Deck.Validate.{IsLegalDeck, validate_deck-IsLegalDeck}
use pet.Auth.Login.{
  Site, FoundUser, no_rows, db_error, user, Checked, invalid_token, store_error, checked, Request,
  refused, saved, failure, token_err, player_from_token, stored, store_deck, validated, save_for,
  save_decks,
}

module _ (S : Site) (cat : Catalog) where
  -- The world after the check of the token.
  abbrev pub after_token : String → S.World → S.World
  after_token authorization w = (S.lookup_token (S.trim_prefix authorization "Bearer ") w).1

  -- What is needed to save a deck for `owner`.
  pub record MaySave (r : Request (List String)) (w : S.World) (owner : String) : Type 0 where
    pub writes : (r.method ≡ "POST") ⊎ (r.method ≡ "PUT")
    pub bearer : S.has_prefix r.authorization "Bearer " ≡ true
    pub known : (S.lookup_token (S.trim_prefix r.authorization "Bearer ") w).0 ≡ checked owner
    pub cards : List String
    pub parsed : r.body ≡ some cards
    pub legal : IsLegalDeck cat cards
    pub uid : ℕ
    pub password : String
    pub found : (S.find_user owner (after_token r.authorization w)).0 ≡ user uid password
    pub written :
        (S.upsert_deck uid cards (S.find_user owner (after_token r.authorization w)).1).0 ≡ true

  writes_test :
      (m : String) → (m ≡ "POST") ⊎ (m ≡ "PUT") → (str_eq m "POST" || str_eq m "PUT") ≡ true
  writes_test m (inl e) = ground (arith, eq_iff m "POST")
  writes_test m (inr e) = ground (arith, eq_iff m "PUT")

  test_writes :
      (m : String) → (str_eq m "POST" || str_eq m "PUT") ≡ true → (m ≡ "POST") ⊎ (m ≡ "PUT")
  test_writes m e = elim (Bool-cases (str_eq m "POST")) [
    | inl p ↦ inl ((eq_iff m "POST").0 p)
    | inr p ↦ inr ((eq_iff m "PUT").0 (ground arith))
  ]

  saves :
      (r : Request (List String)) (w : S.World) (owner : String)
      → MaySave r w owner
      → (save_decks S cat r w).0 ≡ saved owner
  unfolding save_decks player_from_token save_for validated store_deck stored
  saves r w owner h =
      let valid =
        (validate_deck-IsLegalDeck cat (record { owner = owner; cards = h.cards })).1 h.legal in
      rw (writes_test r.method h.writes, h.bearer, h.known, h.parsed, valid, h.found, h.written)
        refl

  stored-saved :
      (owner o : String) (f : Bool × S.World)
      → (stored S owner f).0 ≡ saved o
      → (o ≡ owner) × (f.0 ≡ true)
  unfolding stored
  stored-saved owner o (false, w) e = cc
  stored-saved owner o (true, w) e = (cc, refl)

  store_deck-saved :
      (owner o : String) (cards : List String) (f : FoundUser × S.World)
      → (store_deck S owner cards f).0 ≡ saved o
      → (o ≡ owner)
        × (uid : ℕ) × (password : String) × (f.0 ≡ user uid password)
        × ((S.upsert_deck uid cards f.1).0 ≡ true)
  unfolding store_deck
  store_deck-saved owner o cards (no_rows, w) e = cc
  store_deck-saved owner o cards (db_error, w) e = cc
  store_deck-saved owner o cards (user uid password, w) e =
      let (same, written) = stored-saved owner o (S.upsert_deck uid cards w) e in
      (same, uid, password, refl, written)

  validated-saved :
      (owner o : String) (cards : List String) (v : Option Error) (w : S.World)
      → (validated S owner cards v w).0 ≡ saved o
      → (v ≡ none)
        × (checked owner ≡ checked o)
        × (uid : ℕ) × (password : String) × ((S.find_user o w).0 ≡ user uid password)
        × ((S.upsert_deck uid cards (S.find_user o w).1).0 ≡ true)
  unfolding validated
  validated-saved owner o cards (some error) w e = cc
  validated-saved owner o cards none w e =
      let (same, uid, password, found, written) =
        store_deck-saved owner o cards (S.find_user owner w) e in
      (
        refl,
        ap checked (sym same),
        uid,
        password,
        subst (λ n. (S.find_user n w).0 ≡ user uid password) (sym same) found,
        subst (λ n. (S.upsert_deck uid cards (S.find_user n w).1).0 ≡ true) (sym same) written,
      )

  -- What the handler has found when it saves, from the token check on.
  save_for-saved :
      (body : Option (List String)) (o : String) (c : Checked × S.World)
      → (save_for S cat body c).0 ≡ saved o
      → (c.0 ≡ checked o)
        × (cards : List String) × (body ≡ some cards)
        × IsLegalDeck cat cards
        × (uid : ℕ) × (password : String) × ((S.find_user o c.1).0 ≡ user uid password)
        × ((S.upsert_deck uid cards (S.find_user o c.1).1).0 ≡ true)
  unfolding save_for
  save_for-saved body o (invalid_token, w) e = cc
  save_for-saved body o (store_error, w) e = cc
  save_for-saved none o (checked owner, w) e = cc
  save_for-saved (some cards) o (checked owner, w) e =
      let (valid, known, uid, password, found, written) =
        validated-saved owner o cards
          (validate_deck (some cat) (record { owner = owner; cards = cards })) w e in
      (
        known,
        cards,
        refl,
        (validate_deck-IsLegalDeck cat (record { owner = owner; cards = cards })).0 valid,
        uid,
        password,
        found,
        written,
      )

  -- `Savedecks` answers that a deck is saved for an owner exactly when the method is POST or PUT,
  -- the header bears a token that belongs to the owner, the body parses to a list of cards that is
  -- a legal deck, the owner is found and the database stores it.
  pub save_decks-MaySave :
      (r : Request (List String)) (w : S.World) (owner : String)
      → ((save_decks S cat r w).0 ≡ saved owner) ↔ MaySave r w owner
  unfolding save_decks player_from_token
  save_decks-MaySave r w owner = (found_all, saves r w owner)
    where
      found_all : (save_decks S cat r w).0 ≡ saved owner → MaySave r w owner
      found_all e = elim (Bool-cases (str_eq r.method "POST" || str_eq r.method "PUT")) [
        | inr neither ↦
            let stops : (save_decks S cat r w).0 ≡ refused (failure 405 "method not allowed") =
              rw neither refl in
            cc (sym e ∙ stops)
        | inl posts ↦ elim (Bool-cases (S.has_prefix r.authorization "Bearer ")) [
          | inr bare ↦
              let stops : (save_decks S cat r w).0 ≡ refused (failure 401 "invalid token") =
                unfold save_for token_err in rw (posts, bare) refl in
              cc (sym e ∙ stops)
          | inl bearer ↦
              let e' : (save_for S cat r.body
                    (S.lookup_token (S.trim_prefix r.authorization "Bearer ") w)).0
                  ≡ saved owner =
                sym (rw (posts, bearer) refl) ∙ e in
              let (known, cards, parsed, legal, uid, password, found, written) =
                save_for-saved r.body owner
                  (S.lookup_token (S.trim_prefix r.authorization "Bearer ") w) e' in
              record {
                writes = test_writes r.method posts;
                bearer = bearer;
                known = known;
                cards = cards;
                parsed = parsed;
                legal = legal;
                uid = uid;
                password = password;
                found = found;
                written = written;
              }
        ]
      ]
