-- ===== src/Builtin/Unset/Laws.antt =====
-- What `unset` leaves of the variables.
use mrsh.Base.{
  ◌≡◌, refl, sym, ◌∙◌, ◌||◌, Bool, false, if◌then◌else◌, Option-cases, Bool-cases, inl, inr, List,
  [], ◌∷◌, none, some, Text, str_eq, str_eq_sound,
}
use mrsh.Shell.{State, Variable, env_get, env_unset, has_bit}
use mrsh.Shell.Env.{HasTables, env_unset-HasTables, env_get-unset}
use mrsh.Builtin.Unset.{attrib_readonly, returned, unset_names}

abbrev pub among : Text → List Text → Bool
among q [] = false
among q (name ∷ names) = str_eq q name || among q names

abbrev pub IsWritable : State → Text → Type 0
IsWritable s name =
    (v : Variable) → env_get s name ≡ some v → has_bit v.attribs attrib_readonly ≡ false

abbrev pub AreWritable : State → List Text → Type 0
AreWritable s [] = Unit
AreWritable s (name ∷ names) = IsWritable s name × AreWritable s names

-- Unsetting a variable makes no other one readonly.
unset-IsWritable :
    (s : State) (name q : Text) → HasTables s → IsWritable s q → IsWritable (env_unset s name) q
unset-IsWritable s name q h w v e = elim (Bool-cases (str_eq q name)) [
  | inl same ↦
      let x : env_get (env_unset s name) q ≡ none = env_get-unset s name q h ∙ rw same refl in
      absurd (none_some v (sym x ∙ e))
  | inr other ↦
      let x : env_get (env_unset s name) q ≡ env_get s q =
        env_get-unset s name q h ∙ rw other refl in
      w v (sym x ∙ e)
]
  where
    none_some : (v : Variable) → none ≡ some v → ⊥
    none_some v e = cc

unset-AreWritable :
    (s : State) (name : Text) (names : List Text)
    → HasTables s
    → AreWritable s names
    → AreWritable (env_unset s name) names
unset-AreWritable s name [] h w = tt
unset-AreWritable s name (q ∷ names) h w =
    (unset-IsWritable s name q h w.0, unset-AreWritable s name names h w.1)

-- What is left to be read when a name is unset, or was not set.
after_unset :
    (s t : State) (name q : Text) (names : List Text)
    → env_get s q ≡ (if str_eq q name then none else env_get t q)
    → (if among q names then none else env_get s q)
      ≡ (if among q (name ∷ names) then none else env_get t q)
after_unset s t name q names e = elim (Bool-cases (among q names)) [
  | inl later ↦ elim (Bool-cases (str_eq q name)) [
    | inl same ↦ rw (later, same) refl
    | inr other ↦ rw (later, other) refl
  ]
  | inr never ↦ elim (Bool-cases (str_eq q name)) [
    | inl same ↦ rw (never, same) (e ∙ rw same refl)
    | inr other ↦ rw (never, other) (e ∙ rw other refl)
  ]
]

unset_absent :
    (s : State) (name q : Text)
    → env_get s name ≡ none
    → env_get s q ≡ (if str_eq q name then none else env_get s q)
unset_absent s name q e = elim (Bool-cases (str_eq q name)) [
  | inl same ↦ rw same (rw (str_eq_sound q name same) e)
  | inr other ↦ rw other refl
]

-- When the tables are valid and none of the names is that of a readonly variable, `unset` returns 0 and
-- the variables of these names are unset; the others are as before.
pub unset_names-env :
    (names : List Text) (s : State)
    → HasTables s
    → AreWritable s names
    → (t : State) × (unset_names false names s ≡ returned 0 t)
      × ((q : Text) → env_get t q ≡ (if among q names then none else env_get s q))
unfolding unset_names
unset_names-env [] s h w = (s, refl, λ q. refl)
unset_names-env (name ∷ names) s h w = elim (Option-cases (env_get s name)) [
  | inl e ↦
      let (t, r, f) = unset_names-env names s h w.1 in
      (t, rw (unset_names, e) r, λ q. f q ∙ after_unset s s name q names (unset_absent s name q e))
  | inr (v, e) ↦
      let u = env_unset s name in
      let (t, r, f) =
        unset_names-env names u (env_unset-HasTables s name h)
          (unset-AreWritable s name names h w.1) in
      (
        t,
        rw (unset_names, e, w.0 v e) r,
        λ q. f q ∙ after_unset u s name q names (env_get-unset s name q h),
      )
]
