-- ===== src/Builtin/Unset.antt =====
-- The utility `unset`: builtin/unset.c.
pub mod Laws
use mrsh.Base.{
  ℕ, ◌^◌, ◌≡◌, refl, ◌==◌, ◌||◌, Bool, true, false, if◌then◌else◌, Option-cases, Bool-cases, inl,
  inr, List, [], ◌∷◌, Option, none, some, Text, text, length, drop, str_eq, str_eq_sound, arith,
  ltb, not, ap, ◌∙◌,
}
use mrsh.Hashtable
use mrsh.Shell.{State, Variable, env_get, env_unset, has_bit}
use mrsh.Shell.Env.{HasTables, env_unset-HasTables, env_get-unset}
use mrsh.Builtin.Getopt.{Getopt, Options, all_read, rejected, aborted, out_of_fuel, each_option}

-- A bit of `enum mrsh_variable_attrib`.
abbrev pub attrib_readonly : ℕ
attrib_readonly = 2 ^ 1

-- A utility returns its status and the state, or does not return.
pub data Ran : Type 0 where
  returned : ℕ → State → Ran
  stopped unfinished : Ran

-- Whether functions are to be unset.
abbrev pub unset_switch : ℕ → Bool → Option Bool
unset_switch opt funcs =
    if opt == b'f' then some true else (if opt == b'v' then some false else none)

unfoldable pub unset_function : Text → State → State
unset_function name s = record s { functions = (Hashtable.del s.functions name).1 }

-- The loop over the names.
unfoldable pub unset_names : Bool → List Text → State → Ran
unfolding env_get env_unset unset_function
unset_names funcs [] s = returned 0 s
unset_names true (name ∷ names) s = unset_names true names (unset_function name s)
unset_names false (name ∷ names) s = elim (env_get s name) [
  | none ↦ unset_names false names s
  | some v ↦ elim (has_bit v.attribs attrib_readonly) [
    | true ↦ returned 1 s
    | false ↦ unset_names false names (env_unset s name)
  ]
]

unfoldable pub builtin_unset : ℕ → Getopt → List Text → State → Ran
unfolding each_option unset_names
builtin_unset fuel g argv s =
    elim (each_option unset_switch fuel argv (text ":fv") false (record g { optind = 0 })) [
      | rejected g' ↦ returned 1 s
      | aborted ↦ stopped
      | out_of_fuel ↦ unfinished
      | all_read funcs g' ↦
          if not (ltb g'.optind (length argv))
          then returned 1 s
          else unset_names funcs (drop g'.optind argv) s
    ]
