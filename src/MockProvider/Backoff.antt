-- ===== src/MockProvider/Backoff.antt =====
-- How long the registration loop of a mock provider waits.
use intelli_route_team.Common.{
  ℕ, ◌≡◌, Bool, true, false, not, Option, none, some, List, [], ◌∷◌, All, if◌then◌else◌, nat_beq,
  Bool-cases, inl, inr,
}
use intelli_route_team.Common.Float.{Float, IsFloat, nought, of_ℕ, fmin, fmin-le_right, le-fmin}
use intelli_route_team.MockProvider.{
  Registration, Pause, no_pause, sleeps, started, round, backed_off, after_register,
  after_heartbeat,
}

-- A round's time, what is answered in it, and the time after that.
pub record Round (F : Type 0) : Type 0 where
  pub now : F
  pub reply : Option ℕ
  pub later : F

-- What is used of the product with 1.25, and that one is at most ten.
pub record Grows (F : Type 0) ⦃fl : Float F⦄ : Type 0 where
  pub grows : (a : F) → fl.fle (fl.ratio 1 1) a ≡ true → fl.fle a (fl.mul a (fl.ratio 5 4)) ≡ true
  pub one_le_ten : fl.fle (fl.ratio 1 1) (fl.ratio 10 1) ≡ true

module _ {F : Type 0} ⦃fl : Float F⦄ where
  open fl use {fle, mul, ratio}

  pub pauses : F → List (Round F) → Registration F → List (Pause F)
  pauses interval [] s = []
  pauses interval (r ∷ rs) s =
      let (s', p) = round interval r.now r.reply r.later s in p ∷ pauses interval rs s'

  pub run : F → List (Round F) → Registration F → Registration F
  run interval [] s = s
  run interval (r ∷ rs) s = run interval rs (round interval r.now r.reply r.later s).0

  -- Between one and ten seconds.
  pub record IsPaced (s : Registration F) : Type 0 where
    pub at_least : fle (of_ℕ 1) s.backoff_s ≡ true
    pub at_most : fle s.backoff_s (of_ℕ 10) ≡ true

  abbrev pub IsShort : Pause F → Type 0
  IsShort no_pause = Unit
  IsShort (sleeps t) = fle t (of_ℕ 10) ≡ true

  module _ (laws : IsFloat F) (law : Grows F) (interval : F) where
    open laws use {fle_trans, fle_refl}

    fresh-IsPaced :
        (b : Bool) (t : F)
        → IsPaced (record { registered = b; backoff_s = of_ℕ 1; next_heartbeat_at = t })
    fresh-IsPaced b t = record { at_least = fle_refl (of_ℕ 1); at_most = law.one_le_ten }

    backed_off-IsPaced : (s : Registration F) → IsPaced s → IsPaced (backed_off interval s)
    backed_off-IsPaced s v = record {
      at_least =
          le-fmin laws (mul s.backoff_s (ratio 5 4)) (of_ℕ 10) (of_ℕ 1)
            (fle_trans (of_ℕ 1) s.backoff_s (mul s.backoff_s (ratio 5 4)) v.at_least
              (law.grows s.backoff_s v.at_least))
            law.one_le_ten;
      at_most = fmin-le_right laws (mul s.backoff_s (ratio 5 4)) (of_ℕ 10);
    }

    abbrev Good : Registration F × Pause F → Type 0
    Good r = IsPaced r.0 × IsShort r.1

    after_register-Good :
        (t : F) (reply : Option ℕ) (s : Registration F)
        → IsPaced s
        → Good (after_register interval t reply s)
    after_register-Good t none s v =
        let p = backed_off-IsPaced s v in
        (record { at_least = p.at_least; at_most = p.at_most }, v.at_most)
    after_register-Good t (some status) s v = elim (Bool-cases (nat_beq status 200)) [
      | inl e ↦ rw e (fresh-IsPaced true _, tt)
      | inr e ↦ rw e (backed_off-IsPaced s v, v.at_most)
    ]

    after_heartbeat-Good :
        (t : F) (reply : Option ℕ) (s : Registration F)
        → IsPaced s
        → Good (after_heartbeat interval t reply s)
    after_heartbeat-Good t none s v =
        let p = backed_off-IsPaced s v in
        (record { at_least = p.at_least; at_most = p.at_most }, v.at_most)
    after_heartbeat-Good t (some status) s v = elim (Bool-cases (nat_beq status 200)) [
      | inl e ↦ rw e (fresh-IsPaced s.registered _, tt)
      | inr e ↦ rw e (fresh-IsPaced false _, tt)
    ]

    short_nap : (a : F) → fle (fmin a (of_ℕ 1)) (of_ℕ 10) ≡ true
    short_nap a =
        fle_trans (fmin a (of_ℕ 1)) (of_ℕ 1) (of_ℕ 10) (fmin-le_right laws a (of_ℕ 1))
          law.one_le_ten

    by_state :
        (new due : Bool) (x y : Registration F × Pause F) (s : Registration F) (a : F)
        → Good x
        → Good y
        → IsPaced s
        → Good (if new then x else if due then y else (s, sleeps (fmin a (of_ℕ 1))))
    by_state true due x y s a hx hy v = hx
    by_state false true x y s a hx hy v = hy
    by_state false false x y s a hx hy v = (v, short_nap a)

    round-Good :
        (r : Round F) (s : Registration F)
        → IsPaced s
        → Good (round interval r.now r.reply r.later s)
    unfolding round
    round-Good r s v =
        by_state (not s.registered) _ _ _ s _ (after_register-Good r.later r.reply s v)
          (after_heartbeat-Good r.later r.reply s v) v

    run-Good :
        (rs : List (Round F)) (s : Registration F)
        → IsPaced s
        → IsPaced (run interval rs s) × All IsShort (pauses interval rs s)
    unfolding run pauses
    run-Good [] s v = (v, tt)
    run-Good (r ∷ rs) s v =
        let (v', p) = round-Good r s v in
        let (w, ps) = run-Good rs (round interval r.now r.reply r.later s).0 v' in (w, (p, ps))

    -- Whatever the router answers and whatever fails, the backoff stays between one and ten seconds
    -- and no pause of the loop is longer than ten seconds.
    pub run-IsPaced :
        (rs : List (Round F))
        → let s = started interval in
          IsPaced (run interval rs s) × All IsShort (pauses interval rs s)
    unfolding started
    run-IsPaced rs = run-Good rs (started interval) (fresh-IsPaced false nought)
