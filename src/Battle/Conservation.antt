-- ===== src/Battle/Conservation.antt =====
-- No action of internal/battle loses or invents a card: what a player holds, and what the player has
-- played, add up to the opening deck.
use pet.Base.{
  ℕ, ◌+◌, ◌≡◌, refl, sym, ap, ◌∙◌, ◌≢◌, inl, inr, String, ℤ, ◌&&◌, List, [], ◌∷◌, ◌++◌, some, arith,
  if◌then◌else◌, str_eq, sub_int,
}
use text.Mathlib.TextEquality.{eq_iff}
use pet.Deck.{Card}
use pet.Battle.Model.{
  Seat, first, second, other, Minion, Player, State, Action, player, play_card_kind, attack_kind,
  end_turn_kind,
}
use pet.Battle.Turns.{refill, tire, wake_all, index_of, end_turn, inst_name}
use pet.Battle.Actions.{
  Target, face, minion, refused, strike, bury, remove_at, fresh_minion, index_of_string,
}
use pet.Battle.Board.{bury-living}
use pet.Battle.Invariant.{IsSane, IsSound}
use pet.Battle.Steps.{List-cases}
use pet.Battle.Cards.{
  one, count_card, count_card-append, count_card-remove_at, index_of_string-get_elem?,
}
use pet.Battle.Play.{CanPlay, Played}
use pet.Battle.Combat.{Fought}
use pet.Battle.Legal.{HasTurn, Legal, apply-cases}
use pet.Battle.Effects.{
  turned, seat_split, end_turn-player, end_turn-other, Played-player, Played-other, Fought-player,
}
use pet.Battle.Replay.{Step, OnStep}
use pet.Battle.History.{live, live_rejected, live_accepted, accepted-IsSound}

-- How often the player has the card `x`, in the hand or in the deck.
unfoldable pub held : String → Player → ℕ
held x p = count_card x p.hand + count_card x p.deck

pub held-turned : (x : String) (p : Player) → held x (turned p) ≡ held x p
unfolding held turned refill tire wake_all count_card
held-turned x p = elim (List-cases p.deck) [
  | inl e ↦ ground arith
  | inr (c, r, e) ↦ ground (arith, count_card-append x p.hand (c ∷ []))
]

held-bury : (x : String) (p : Player) → held x (bury p) ≡ held x p
unfolding held
held-bury x p = rw (bury-living p)

held-played :
    (x c : String) (p : Player) (mana : ℤ) (hi : ℕ) (ms : List Minion)
    → index_of_string p.hand c ≡ some hi
    → held x (record p { mana = mana; hand = remove_at hi p.hand; board = ms }) + one x c ≡ held x p
unfolding held
held-played x c p mana hi ms e =
    omega (arith, count_card-remove_at x p.hand hi c (index_of_string-get_elem? p.hand c hi e))

held-strike :
    (x : String) (s : State) (i j : Seat) (m : Minion) (k : ℕ) (t : Target)
    → held x (player (strike s i m k t).0 j) ≡ held x (player s j)
unfolding held strike
held-strike x s first first m k face = refl
held-strike x s first second m k face = refl
held-strike x s second first m k face = refl
held-strike x s second second m k face = refl
held-strike x s first first m k (minion def d) = refl
held-strike x s first second m k (minion def d) = refl
held-strike x s second first m k (minion def d) = refl
held-strike x s second second m k (minion def d) = refl
held-strike x s i j m k (refused c) = refl

-- 1 if the action plays the card `x` for the player named `id`, else 0.
abbrev pub spent : String → String → String → Action → ℕ
spent x id player_id a =
    if str_eq a.kind play_card_kind && str_eq player_id id then one x a.card_id else 0

spent_other_kind :
    (x id player_id : String) (a : Action) → a.kind ≢ play_card_kind → spent x id player_id a ≡ 0
spent_other_kind x id player_id a ne = ground (arith, eq_iff a.kind play_card_kind)

spent_self :
    (x id player_id : String) (a : Action)
    → a.kind ≡ play_card_kind
    → player_id ≡ id
    → spent x id player_id a ≡ one x a.card_id
spent_self x id player_id a k e = ground (arith, eq_iff a.kind play_card_kind, eq_iff player_id id)

spent_other : (x id player_id : String) (a : Action) → player_id ≢ id → spent x id player_id a ≡ 0
spent_other x id player_id a ne = ground (arith, eq_iff player_id id)

HasTurn-id :
    (s : State) (player_id : String) (i : Seat)
    → HasTurn s player_id i
    → player_id ≡ (player s i).id
HasTurn-id s player_id first h =
    unfold index_of in
    ground
      (arith, h.seated, eq_iff s.first_player.id player_id, eq_iff s.second_player.id player_id)
HasTurn-id s player_id second h =
    unfold index_of in
    ground
      (arith, h.seated, eq_iff s.first_player.id player_id, eq_iff s.second_player.id player_id)

other_id : (s : State) (i : Seat) → IsSane s → (player s i).id ≢ (player s (other i)).id
other_id s first h e = h.ids_differ e
other_id s second h e = h.ids_differ (sym e)

-- What one accepted action does to the cards and the name of each player.
record Conserves (x player_id : String) (a : Action) (s t : State) (j : Seat) : Type 0 where
  cards : held x (player t j) + spent x (player s j).id player_id a ≡ held x (player s j)
  name : (player t j).id ≡ (player s j).id

play_ne_attack : attack_kind ≢ play_card_kind
play_ne_attack = ground (arith, eq_iff attack_kind play_card_kind)

play_ne_end : end_turn_kind ≢ play_card_kind
play_ne_end = ground (arith, eq_iff end_turn_kind play_card_kind)

pub turned_id : (p : Player) → (turned p).id ≡ p.id
unfolding turned refill tire wake_all
turned_id p = ground arith

bury_id : (p : Player) → (bury p).id ≡ p.id
bury_id p = rw (bury-living p)

strike_id :
    (s : State) (i j : Seat) (m : Minion) (k : ℕ) (t : Target)
    → (player (strike s i m k t).0 j).id ≡ (player s j).id
unfolding strike
strike_id s first first m k face = refl
strike_id s first second m k face = refl
strike_id s second first m k face = refl
strike_id s second second m k face = refl
strike_id s first first m k (minion def d) = refl
strike_id s first second m k (minion def d) = refl
strike_id s second first m k (minion def d) = refl
strike_id s second second m k (minion def d) = refl
strike_id s i j m k (refused c) = refl

module _ (x player_id : String) (a : Action) (s : State) (i : Seat) (h : IsSane s)
    (turn : HasTurn s player_id i) where
  not_other : player_id ≢ (player s (other i)).id
  not_other e = other_id s i h (sym (HasTurn-id s player_id i turn) ∙ e)

  plays-Conserves :
      (card : Card) (hi : ℕ)
      → a.kind ≡ play_card_kind
      → CanPlay s i a card hi
      → (j : Seat) → Conserves x player_id a s (Played s i card hi) j
  plays-Conserves card hi k can =
      seat_split (Conserves x player_id a s (Played s i card hi)) i
        (record {
          cards = omega (
            arith,
            ap (held x) (Played-player s i card hi),
            held-played x a.card_id (player s i) (sub_int (player s i).mana card.cost) hi
                ((player s i).board ++ fresh_minion card (inst_name (s.next_inst_id + 1)) ∷ [])
                can.in_hand,
            spent_self x (player s i).id player_id a k (HasTurn-id s player_id i turn),
          );
          name = ap (λ (p : Player). p.id) (Played-player s i card hi);
        })
        (record {
          cards = omega (
            arith,
            ap (held x) (Played-other s i card hi),
            spent_other x (player s (other i)).id player_id a not_other,
          );
          name = ap (λ (p : Player). p.id) (Played-other s i card hi);
        })

  ends-Conserves : a.kind ≡ end_turn_kind → (j : Seat) → Conserves x player_id a s (end_turn s i) j
  ends-Conserves k =
      seat_split (Conserves x player_id a s (end_turn s i)) i
        (record {
          cards = omega (
            arith,
            ap (held x) (end_turn-other s i),
            spent_other_kind x (player s i).id player_id a (λ e. play_ne_end (sym k ∙ e)),
          );
          name = ap (λ (p : Player). p.id) (end_turn-other s i);
        })
        (record {
          cards = omega (
            arith,
            ap (held x) (end_turn-player s i),
            held-turned x (player s (other i)),
            spent_other_kind x (player s (other i)).id player_id a (λ e. play_ne_end (sym k ∙ e)),
          );
          name = ap (λ (p : Player). p.id) (end_turn-player s i) ∙ turned_id (player s (other i));
        })

  fights-Conserves :
      (m : Minion) (k : ℕ) (t : Target)
      → a.kind ≡ attack_kind
      → (j : Seat) → Conserves x player_id a s (Fought s i m k t) j
  fights-Conserves m k t e j = record {
    cards = omega (
      arith,
      ap (held x) (Fought-player s i j m k t),
      held-bury x (player (strike s i m k t).0 j),
      held-strike x s i j m k t,
      spent_other_kind x (player s j).id player_id a (λ e'. play_ne_attack (sym e ∙ e')),
    );
    name =
        ap (λ (p : Player). p.id) (Fought-player s i j m k t)
        ∙ (bury_id (player (strike s i m k t).0 j) ∙ strike_id s i j m k t);
  }

Legal-Conserves :
    (x player_id : String) (a : Action) (s t : State)
    → IsSane s
    → Legal s player_id a t
    → (j : Seat) → Conserves x player_id a s t j
Legal-Conserves x player_id a s t h (Legal.plays i turn k card hi can e) j =
    rw e (plays-Conserves x player_id a s i h turn card hi k can j)
Legal-Conserves x player_id a s t h (Legal.fights i turn k m n target can aim e) j =
    rw e (fights-Conserves x player_id a s i h turn m n target k j)
Legal-Conserves x player_id a s t h (Legal.ends i turn k e) j =
    rw e (ends-Conserves x player_id a s i h turn k j)

-- How often the player named `id` plays the card `x` in a list of steps.
unfoldable pub played_times : String → String → List Step → ℕ
played_times x id [] = 0
played_times x id (st ∷ sts) = spent x id st.player st.action + played_times x id sts

module _ {T : Type 0} (on_step : OnStep T) (x : String) where
  -- In a game that satisfies the invariant, over any list of actions a player's cards in hand and
  -- deck, with those that the player was accepted to play, are the cards that the player had: each
  -- card as often.
  pub held-live :
      (i : ℕ) (s : State) (sts : List Step) (acc : T) (j : Seat)
      → IsSound s
      → held x (player (live on_step i s sts acc).final j)
          + played_times x (player s j).id (live on_step i s sts acc).accepted
        ≡ held x (player s j)
  unfolding played_times
  held-live i s [] acc j h = unfold live in omega arith
  held-live i s (st ∷ sts) acc j h = elim (apply-cases s st.player st.action) [
    | inl (c, e) ↦ rw (live_rejected on_step i s st sts acc c e) (held-live i s sts acc j h)
    | inr (t, e, m) ↦
        let c = Legal-Conserves x st.player st.action s t h.sane m j in
        rw (live_accepted on_step i s t st sts acc e) (
          let ih =
            held-live (i + 1) t sts (on_step (some i) t acc) j (accepted-IsSound s t st h e) in
          omega (arith, c.cards, rw c.name at ih))
  ]
