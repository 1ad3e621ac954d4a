-- ===== src/Common/Table.antt =====
-- A table of rows: the updates, counts and probes that a `WHERE` clause selects.
use mathlib.Core.Path.{◌≡◌, refl, sym, ap, ◌∙◌}
use mathlib.Core.Logic.{◌⊎◌, inl, inr}
use mathlib.Core.Bool.{Bool, true, false, ◌&&◌, ◌||◌, not}
use mathlib.Core.Option.{Option, none, some}
use mathlib.Core.List.{List, [], ◌∷◌, ◌++◌, map}
use native.Mathlib.Omega.{arith}
use mini_enclava_go.Common.Tests.{if◌then◌else◌, Bool-cases}

module _ {ℓ} {A : Type ℓ} where
  -- `UPDATE … SET f WHERE p`.
  unfoldable pub update_where : (A → Bool) → (A → A) → List A → List A
  update_where p f [] = []
  update_where p f (r ∷ rows) = (if p r then f r else r) ∷ update_where p f rows

  -- Whether a row satisfies p: `RowsAffected() > 0`, or `EXISTS`.
  unfoldable pub any_where : (A → Bool) → List A → Bool
  any_where p [] = false
  any_where p (r ∷ rows) = p r || any_where p rows

  -- The first row that satisfies p.
  unfoldable pub find_where : (A → Bool) → List A → Option A
  find_where p [] = none
  find_where p (r ∷ rows) = if p r then some r else find_where p rows

  -- `SELECT … WHERE p`.
  unfoldable pub select_where : (A → Bool) → List A → List A
  select_where p [] = []
  select_where p (r ∷ rows) = let rest = select_where p rows in if p r then r ∷ rest else rest

  -- A property of every row.
  abbrev pub Each {κ} : (A → Type κ) → List A → Type κ
  Each P [] = Unit
  Each P (r ∷ rows) = P r × Each P rows

  abbrev pub Any : (A → Type 0) → List A → Type 0
  Any P [] = ⊥
  Any P (r ∷ rows) = P r ⊎ Any P rows

module _ {ℓ} {A : Type ℓ} (p : A → Bool) where
  find_where-first : (x : A) (rows : List A) → p x ≡ true → find_where p (x ∷ rows) ≡ some x
  unfolding find_where
  find_where-first x rows h = rw h refl

  find_where-later :
      (x : A) (rows : List A) → p x ≡ false → find_where p (x ∷ rows) ≡ find_where p rows
  unfolding find_where
  find_where-later x rows h = rw h refl

  -- An update that the probe does not see finds the updated row.
  pub find_where-update_where :
      (g : A → Bool) (f : A → A) (rows : List A) {r : A}
      → ((s : A) → p (f s) ≡ p s)
      → find_where p rows ≡ some r
      → find_where p (update_where g f rows) ≡ some (if g r then f r else r)
  unfolding update_where
  find_where-update_where g f [] {r} keeps e = unfold find_where in cc e
  find_where-update_where g f (x ∷ rows) {r} keeps e =
      let seen : p (if g x then f x else x) ≡ p x = elim (Bool-cases (g x)) [
        | inl set ↦ rw set (keeps x)
        | inr unset ↦ rw unset refl
      ] in
      elim (Bool-cases (p x)) [
        | inl here ↦
            let same : some x ≡ some r = sym (find_where-first x rows here) ∙ e in
            let x_is : x ≡ r = cc same in
            find_where-first (if g x then f x else x) (update_where g f rows) (seen ∙ here)
            ∙ rw x_is refl
        | inr other ↦
            find_where-later (if g x then f x else x) (update_where g f rows) (seen ∙ other)
            ∙ find_where-update_where g f rows keeps (sym (find_where-later x rows other) ∙ e)
      ]

  pub find_where-append :
      (rows new : List A) {r : A} → find_where p rows ≡ some r → find_where p (rows ++ new) ≡ some r
  find_where-append [] new {r} e = unfold find_where in cc e
  find_where-append (x ∷ rows) new {r} e = elim (Bool-cases (p x)) [
    | inl here ↦ find_where-first x (rows ++ new) here ∙ (sym (find_where-first x rows here) ∙ e)
    | inr other ↦
        find_where-later x (rows ++ new) other
        ∙ find_where-append rows new (sym (find_where-later x rows other) ∙ e)
  ]

  -- Where a probe misses, it finds the row that is added at the end.
  pub find_where-added :
      (rows : List A) (x : A)
      → any_where p rows ≡ false
      → p x ≡ true
      → find_where p (rows ++ x ∷ []) ≡ some x
  unfolding any_where
  find_where-added [] x h e = find_where-first x [] e
  find_where-added (y ∷ rows) x h e =
      find_where-later y (rows ++ x ∷ []) (ground arith) ∙ find_where-added rows x (ground arith) e

  -- A row that a probe finds satisfies it.
  pub find_where-holds : (rows : List A) {r : A} → find_where p rows ≡ some r → p r ≡ true
  find_where-holds [] {r} e = unfold find_where in cc e
  find_where-holds (x ∷ rows) {r} e = elim (Bool-cases (p x)) [
    | inl here ↦
        let same : some x ≡ some r = sym (find_where-first x rows here) ∙ e in
        let x_is : x ≡ r = cc same in rw (sym x_is) here
    | inr other ↦ find_where-holds rows (sym (find_where-later x rows other) ∙ e)
  ]

module _ {ℓ κ} {A : Type ℓ} {B : Type κ} (p g : A → Bool) (f : A → A) (view : A → B) where
  -- An update that changes neither which rows are selected nor their view.
  pub select_where-update_where :
      (rows : List A)
      → ((x : A) → g x ≡ true → p (f x) ≡ p x)
      → ((x : A) → view (f x) ≡ view x)
      → map view (select_where p (update_where g f rows)) ≡ map view (select_where p rows)
  unfolding select_where update_where
  select_where-update_where [] same seen = refl
  select_where-update_where (x ∷ rows) same seen =
      let rest = select_where-update_where rows same seen in
      elim (Bool-cases (g x)) [
        | inr unset ↦ elim (Bool-cases (p x)) [
          | inl taken ↦ rw (unset, taken) (ap (λ ys. view x ∷ ys) rest)
          | inr dropped ↦ rw (unset, dropped) rest
        ]
        | inl set ↦ elim (Bool-cases (p x)) [
          | inl taken ↦ rw (set, same x set, taken, seen x) (ap (λ ys. view x ∷ ys) rest)
          | inr dropped ↦ rw (set, same x set, dropped) rest
        ]
      ]

module _ {ℓ} {A : Type ℓ} (p g : A → Bool) (f : A → A) where
  -- An update after which its rows are not selected.
  pub select_where-dropped :
      (rows : List A)
      → ((x : A) → g x ≡ true → p (f x) ≡ false)
      → select_where p (update_where g f rows) ≡ select_where (λ x. p x && not (g x)) rows
  unfolding select_where update_where
  select_where-dropped [] gone = refl
  select_where-dropped (x ∷ rows) gone =
      let rest = select_where-dropped rows gone in
      elim (Bool-cases (g x)) [
        | inl set ↦ elim (Bool-cases (p x)) [
          | inl taken ↦ rw (set, gone x set, taken) rest
          | inr dropped ↦ rw (set, gone x set, dropped) rest
        ]
        | inr unset ↦ elim (Bool-cases (p x)) [
          | inl taken ↦ rw (unset, taken) (ap (λ ys. x ∷ ys) rest)
          | inr dropped ↦ rw (unset, dropped) rest
        ]
      ]
