-- ===== src/Features/Recency/Unseen.antt =====
-- The rate that src/rex/features/recency.py gives a user without a history rests on the labels of all rows.
use mathlib.Core.Path.{subst}
use mathlib.Core.Option.{some-injective}
use tiktok_techjam_recsys_ag.Prelude.{
  ℕ, ◌≡◌, ◌≢◌, ◌<◌, refl, sym, ◌∙◌, inl, inr, not, none, some, List, [], ◌∷◌, String, string_eq,
  nat_eq, option_eq, ◌==◌, if◌then◌else◌, Bool-cases, arith,
}
use tiktok_techjam_recsys_ag.Prelude.Table.{Table, get, put, get-put}
use tiktok_techjam_recsys_ag.Data.Arrays.{Array, All, Columns, Numpy, IsNumpy, IsOrder, require}
use tiktok_techjam_recsys_ag.Features.Numbers.{Floats, zero}
use tiktok_techjam_recsys_ag.Features.PointInTime.History.{learned}
use tiktok_techjam_recsys_ag.Features.PointInTime.Before.{earlier-before, All-map}
use tiktok_techjam_recsys_ag.Features.PointInTime.Returns.{bind_some}
use tiktok_techjam_recsys_ag.Features.Dated.{rows_before, visit-dated}
use tiktok_techjam_recsys_ag.Features.Recency.{
  UserHistory, UserRate, no_history, factor_since, mean_label, user_row, emit_user, decay_user,
  add_user, learn_user, recency_history_features,
}

module _ {F : Type 0} (floats : Floats F) (user_ids : Array String) (half_life_days : F)
    (labels : Array F) (u : String) where
  -- Nothing is stored for the user.
  abbrev IsUnseen : UserHistory F → Type 0
  IsUnseen s = (get u s.positive ≡ none) × (get u s.count ≡ none) × (get u s.last_date ≡ none)

  put_other :
      {V : Type 0} (k : String) (v : V) (t : Table String V)
      → k ≢ u
      → get u t ≡ none
      → get u (put k v t) ≡ none
  put_other k v t ne h = rw (get-put k u v t) (ground (arith, ne, h))

  decays_other :
      (current : ℕ) (s : UserHistory F) (j : ℕ) {s' : UserHistory F}
      → user_ids.at j ≢ u
      → IsUnseen s
      → decay_user floats user_ids half_life_days current s j ≡ some s'
      → IsUnseen s'
  decays_other current s j ne (p, c, l) e =
      let (factor, _, r) =
        bind_some (factor_since floats current half_life_days (get (user_ids.at j) s.last_date)) _
          e in
      subst IsUnseen (some-injective _ _ r)
        (put_other _ _ s.positive ne p, put_other _ _ s.count ne c, put_other _ _ s.last_date ne l)

  adds_other :
      (s : UserHistory F) (j : ℕ)
      → user_ids.at j ≢ u
      → IsUnseen s
      → IsUnseen (add_user floats user_ids labels s j)
  adds_other s j ne (p, c, l) = (put_other _ _ s.positive ne p, put_other _ _ s.count ne c, l)

  learns_other :
      (current : ℕ) (s : UserHistory F) (j : ℕ) {s' : UserHistory F}
      → user_ids.at j ≢ u
      → IsUnseen s
      → learn_user floats user_ids half_life_days labels current s j ≡ some s'
      → IsUnseen s'
  unfolding learn_user
  learns_other current s j ne h e =
      let (s1, e1, r) =
        bind_some
          (if get (user_ids.at j) s.last_date == some current
            then some s
            else decay_user floats user_ids half_life_days current s j)
          _ e in
      subst IsUnseen (some-injective _ _ r) (
        adds_other s1 j ne (elim (Bool-cases (get (user_ids.at j) s.last_date == some current)) [
          | inl today ↦ subst IsUnseen (some-injective _ _ (rw today at e1)) h
          | inr before ↦ decays_other current s j ne h (rw before at e1)
        ]))

  learned_other :
      (time : ℕ → ℕ) (js : List ℕ) (s : UserHistory F) {s' : UserHistory F}
      → All (λ j. user_ids.at j ≢ u) js
      → IsUnseen s
      → learned time (learn_user floats user_ids half_life_days labels) js s ≡ some s'
      → IsUnseen s'
  unfolding learned
  learned_other time [] s ne h e = subst IsUnseen (some-injective _ _ e) h
  learned_other time (j ∷ js) s ne h e =
      let (s1, e1, r) =
        bind_some (learn_user floats user_ids half_life_days labels (time j) s j) _ e in
      learned_other time js s1 ne.1 (learns_other (time j) s j ne.0 h e1) r

module _ {F Key : Type 0} (floats : Floats F) (np : Numpy Key) (laws : IsNumpy np)
    (user_ids : Array String) (dates : Array ℕ) (row_ids : Array Key) (labels : Array F)
    (half_life_days prior_strength : F) where
  -- Where lexsort orders the rows by date: when recency_history_features returns, a row whose user
  -- has no row of a strictly earlier date gets the rate of an empty history with the mean of all
  -- labels, those of its own row and of later rows included.
  pub recency_rate-unseen :
      {columns : Columns (UserRate F)}
      → IsOrder dates (np.lexsort row_ids dates)
      → recency_history_features floats np user_ids dates row_ids labels half_life_days
          prior_strength
        ≡ some columns
      → (i : ℕ) → i < dates.size
      → ((j : ℕ) → dates.at j < dates.at i → user_ids.at j ≢ user_ids.at i)
      → columns i
        ≡ user_row floats prior_strength
            (mean_label floats labels)
            (floats.times (zero floats) (floats.whole 1))
            (floats.times (zero floats) (floats.whole 1))
  unfolding recency_history_features get
  recency_rate-unseen sorted h i l unseen =
      let learn = learn_user floats user_ids half_life_days labels in
      let emit =
        emit_user floats user_ids half_life_days prior_strength (mean_label floats labels) in
      let (_, _, run) = bind_some (require (not (floats.is_nonpositive half_life_days))) _ h in
      let (row, w, e) =
        visit-dated np dates row_ids learn emit laws sorted no_history (λ j. none) run i l in
      let (s, learns, r) =
        bind_some (learned dates.at learn (rows_before np dates row_ids i) no_history) _ e in
      let (p, c, d) =
        learned_other floats user_ids half_life_days labels (user_ids.at i) dates.at
          (rows_before np dates row_ids i) no_history
          (All-map (rows_before np dates row_ids i) unseen
            (earlier-before dates.at (dates.at i) (np.lexsort row_ids dates)))
          (refl, refl, refl) learns in
      w ∙ sym (rw (d, p, c) at r)
