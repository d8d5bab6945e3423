-- ===== src/Scheduling/Ordinal/Laws.antt =====
-- The day found for an ordinal weekday is the right one.
use goloom.Scheduling.Ordinal.{last_weekday_day, ordinal_weekday_day, count_weekday, IsCalendar}
use goloom.Prelude.Int.{ℤ, pos, negsuc}
use goloom.Prelude.{
  ℕ, zero, suc, ◌+◌, ◌-◌, ◌*◌, ◌/◌, ◌%◌, ◌≤◌, ◌<◌, ◌≡◌, refl, sym, ap, subst, ◌∙◌, ◌≢◌, inl, inr,
  true, false, ◌||◌, Option, none, some, arith, ltb, ◌==◌, eq_nat, eq_text, eq_of_beq, ne_of_beq,
  Bool-cases, Option-cases,
}

-- The day that is taken for the n-th.
abbrev nth_day : ℕ → ℕ → ℕ → ℕ
nth_day first weekday n = 1 + (weekday + 7 - first) % 7 + (n - 1) * 7

kept : (n max_day day : ℕ) → (n == 0 || ltb max_day day) ≡ false → (1 ≤ n) × (day ≤ max_day)
kept n max_day day h = (ground arith, ground arith)

refused : (n max_day day : ℕ) → 1 ≤ n → (n == 0 || ltb max_day day) ≡ true → max_day < day
refused n max_day day positive h = ground arith

nth_weekday :
    (first weekday n : ℕ)
    → first ≤ 6
    → weekday ≤ 6
    → (first + ((weekday + 7 - first) % 7 + (n - 1) * 7)) % 7 ≡ weekday
nth_weekday first weekday n f w = omega arith

nth_counted :
    (first weekday n : ℕ)
    → 1 ≤ n
    → (nth_day first weekday n + 6 - (weekday + 7 - first) % 7) / 7 ≡ n
nth_counted first weekday n positive = omega arith

too_few :
    (first weekday n max_day : ℕ)
    → 1 ≤ n
    → max_day < nth_day first weekday n
    → (max_day + 6 - (weekday + 7 - first) % 7) / 7 < n
too_few first weekday n max_day positive h = omega arith

offset_here :
    (first weekday day : ℕ)
    → first ≤ 6
    → weekday ≤ 6
    → (first + day) % 7 ≡ weekday
    → 1 + (day + 6 - (weekday + 7 - first) % 7) / 7 ≡ (day + 7 - (weekday + 7 - first) % 7) / 7
offset_here first weekday day f w e = omega arith

offset_elsewhere :
    (first weekday day : ℕ)
    → first ≤ 6
    → weekday ≤ 6
    → (first + day) % 7 ≢ weekday
    → (day + 6 - (weekday + 7 - first) % 7) / 7 ≡ (day + 7 - (weekday + 7 - first) % 7) / 7
offset_elsewhere first weekday day f w e = omega arith

module _ (weekday_of : ℕ → ℕ) (calendar : IsCalendar weekday_of) where
  weekday_after : (k : ℕ) → weekday_of (k + 1) ≡ (weekday_of 1 + k) % 7
  weekday_after zero = let h = calendar.first in omega arith
  weekday_after (suc k) =
      let h = calendar.follows k in
      let ih = weekday_after k in
      let e : weekday_of (suc k + 1) ≡ weekday_of (k + 2) = ap weekday_of (omega arith) in
      omega arith

  module _ (weekday : ℕ) (valid : weekday ≤ 6) where
    count_closed :
        (day : ℕ)
        → count_weekday weekday_of weekday day ≡ (day + 6 - (weekday + 7 - weekday_of 1) % 7) / 7
    count_closed zero = let h = calendar.first in omega arith
    count_closed (suc day) =
        let h = calendar.first in
        let ih = count_closed day in
        let wd = weekday_after day in
        let e : weekday_of (suc day) ≡ weekday_of (day + 1) = ap weekday_of (omega arith) in
        elim (Bool-cases (weekday_of (suc day) == weekday)) [
          | inl same ↦
              let here = eq_of_beq (weekday_of (suc day)) weekday same in
              let step = offset_here (weekday_of 1) weekday day h valid (sym wd ∙ sym e ∙ here) in
              rw same (omega arith)
          | inr other ↦
              let elsewhere = ne_of_beq (weekday_of (suc day)) weekday other in
              let step =
                offset_elsewhere (weekday_of 1) weekday day h valid (λ q. elsewhere (e ∙ wd ∙ q)) in
              rw other (omega arith)
        ]

    -- What a day must be to be the n-th with the weekday.
    pub record IsNth (max_day n day : ℕ) : Type 0 where
      pub starts : 1 ≤ day
      pub ends : day ≤ max_day
      pub on_weekday : weekday_of day ≡ weekday
      pub counted : count_weekday weekday_of weekday day ≡ n

    IsNth-some :
        (max_day n day : ℕ)
        → ordinal_weekday_day weekday_of max_day (pos n) weekday ≡ some day
        → IsNth max_day n day
    unfolding ordinal_weekday_day
    IsNth-some max_day n day h =
        elim (Bool-cases (n == 0 || ltb max_day (nth_day (weekday_of 1) weekday n))) [
          | inl over ↦ cc (rw (over, ordinal_weekday_day) at h)
          | inr within ↦
              let (positive, fits) = kept n max_day (nth_day (weekday_of 1) weekday n) within in
              let e : ◌≡◌ {A = Option ℕ} (some (nth_day (weekday_of 1) weekday n)) (some day) =
                rw (within, ordinal_weekday_day) at h in
              let same : nth_day (weekday_of 1) weekday n ≡ day = cc in
              subst (λ d. IsNth max_day n d) same
                (record {
                  starts = omega arith;
                  ends = fits;
                  on_weekday =
                      ap weekday_of (omega arith)
                      ∙ weekday_after ((weekday + 7 - weekday_of 1) % 7 + (n - 1) * 7)
                      ∙ nth_weekday (weekday_of 1) weekday n calendar.first valid;
                  counted =
                      count_closed (nth_day (weekday_of 1) weekday n)
                      ∙ nth_counted (weekday_of 1) weekday n positive;
                })
        ]

    nth_none :
        (max_day n : ℕ)
        → 1 ≤ n
        → ordinal_weekday_day weekday_of max_day (pos n) weekday ≡ none
        → count_weekday weekday_of weekday max_day < n
    unfolding ordinal_weekday_day
    nth_none max_day n positive h =
        elim (Bool-cases (n == 0 || ltb max_day (nth_day (weekday_of 1) weekday n))) [
          | inr within ↦ cc (rw (within, ordinal_weekday_day) at h)
          | inl over ↦
              let beyond = refused n max_day (nth_day (weekday_of 1) weekday n) positive over in
              subst (λ k. k < n) (sym (count_closed max_day))
                (too_few (weekday_of 1) weekday n max_day positive beyond)
        ]

    last_some :
        (max_day day : ℕ)
        → last_weekday_day weekday_of weekday max_day ≡ some day
        → IsNth max_day (count_weekday weekday_of weekday max_day) day
    unfolding last_weekday_day
    last_some zero day h = cc
    last_some (suc max_day) day h = elim (Bool-cases (weekday_of (suc max_day) == weekday)) [
      | inl here ↦
          let e : ◌≡◌ {A = Option ℕ} (some (suc max_day)) (some day) =
            rw (here, last_weekday_day) at h in
          let same : suc max_day ≡ day = cc in
          subst (λ d. IsNth (suc max_day) (count_weekday weekday_of weekday (suc max_day)) d) same
            (record {
              starts = omega arith;
              ends = omega arith;
              on_weekday = eq_of_beq (weekday_of (suc max_day)) weekday here;
              counted = refl;
            })
      | inr other ↦
          let rest = last_some max_day day (rw (other, last_weekday_day) at h) in
          record {
            starts = rest.starts;
            ends = let le = rest.ends in omega arith;
            on_weekday = rest.on_weekday;
            counted = rw other (let counted = rest.counted in omega arith);
          }
    ]

    last_none :
        (max_day : ℕ)
        → last_weekday_day weekday_of weekday max_day ≡ none
        → count_weekday weekday_of weekday max_day ≡ 0
    unfolding last_weekday_day
    last_none zero h = refl
    last_none (suc max_day) h = elim (Bool-cases (weekday_of (suc max_day) == weekday)) [
      | inl here ↦ cc (rw (here, last_weekday_day) at h)
      | inr other ↦
          let rest = last_none max_day (rw (other, last_weekday_day) at h) in rw other (omega arith)
    ]

    -- What the answer for an ordinal must be: its day, or too few days with the weekday.
    abbrev pub Answers : ℕ → ℤ → Option ℕ → Type 0
    Answers max_day (pos n) (some day) = IsNth max_day n day
    Answers max_day (pos n) none = count_weekday weekday_of weekday max_day < n
    Answers max_day (negsuc n) (some day) =
        IsNth max_day (count_weekday weekday_of weekday max_day) day
    Answers max_day (negsuc n) none = count_weekday weekday_of weekday max_day ≡ 0

    nth-Answers :
        (max_day n : ℕ)
        → 1 ≤ n
        → Answers max_day (pos n) (ordinal_weekday_day weekday_of max_day (pos n) weekday)
    nth-Answers max_day n positive =
        elim (Option-cases (ordinal_weekday_day weekday_of max_day (pos n) weekday)) [
          | inl nothing ↦ rw nothing (nth_none max_day n positive nothing)
          | inr (day, found) ↦ rw found (IsNth-some max_day n day found)
        ]

    last-Answers :
        (max_day : ℕ) → Answers max_day (negsuc zero) (last_weekday_day weekday_of weekday max_day)
    last-Answers max_day = elim (Option-cases (last_weekday_day weekday_of weekday max_day)) [
      | inl nothing ↦ rw nothing (last_none max_day nothing)
      | inr (day, found) ↦ rw found (last_some max_day day found)
    ]

    -- The ordinals that the validation accepts.
    abbrev pub IsOrdinal : ℤ → Type 0
    IsOrdinal (pos n) = 1 ≤ n
    IsOrdinal (negsuc n) = n ≡ 0

    -- In a month whose weekdays follow each other, the day found for the ordinal n is the n-th with
    -- the weekday, and where none is found the month has fewer; for -1 it is the last, and where none
    -- is found there is none.
    pub ordinal_weekday_day-Answers :
        (max_day : ℕ) (ordinal : ℤ)
        → IsOrdinal ordinal
        → Answers max_day ordinal (ordinal_weekday_day weekday_of max_day ordinal weekday)
    unfolding ordinal_weekday_day
    ordinal_weekday_day-Answers max_day (pos n) valid_ordinal = nth-Answers max_day n valid_ordinal
    ordinal_weekday_day-Answers max_day (negsuc zero) valid_ordinal = last-Answers max_day
    ordinal_weekday_day-Answers max_day (negsuc (suc n)) valid_ordinal = cc
