-- ===== src/Tests/Utilities.antt =====
-- Runs of the built-in utilities on concrete inputs.
use mrsh.Base.{
  ◌≡◌, refl, if◌then◌else◌, true, false, [], ◌∷◌, none, some, ok, text, Text, arith, sym, ◌∙◌,
  str_eq, pos, negsuc,
}
use mrsh.Shell.{State, state_create, env_set, env_get, attrib_none, Variable}
use mrsh.Shell.Env.{HasTables, state_create-HasTables, env_set-HasTables, env_get-set}
use mrsh.Builtin.Getopt.{
  Getopt, all_read, char_at, find_option, in_word, getopt, getopt_from, restarted, each_option,
}
use mrsh.Builtin.Getopt.Laws.{run_letters}
use mrsh.Builtin.Getopt.Words.{run_groups, each_option-groups}
use mrsh.Builtin.Control.{Strtol}
use mrsh.Builtin.Shift.{Shifted, shift_param, shift_params, shift_by, builtin_shift}
use mrsh.Builtin.Shift.Laws.{builtin_shift-one}
use mrsh.Hashtable
use mrsh.Hashtable.{Hashtable}
use mrsh.Builtin.Unalias.{delete_all}
use mrsh.Builtin.Unalias.Laws.{get-delete_all}
use mrsh.Hashtable.Laws.{empty-IsValid, put-IsValid}
use mrsh.Builtin.Unset.{returned, unset_switch, unset_names}
use mrsh.Builtin.Unset.Laws.{among, AreWritable, unset_names-env}

-- The state that an earlier utility left.
abbrev left_over : Getopt
left_over = record { optarg = none; optind = 0; optopt = 7; optpos = 4 }

vf_is_f : run_groups unset_switch (text "vf" ∷ text "v" ∷ text "f" ∷ []) false ≡ some true
unfolding run_groups run_letters
vf_is_f = refl

-- `unset -vf -v -f x`
each_option-groups_example :
    (g' : Getopt) × (each_option unset_switch 5
        (text "unset" ∷ text "-vf" ∷ text "-v" ∷ text "-f" ∷ text "x" ∷ [])
        (text ":fv")
        false
        left_over
      ≡ all_read true g')
    × (g'.optind ≡ 4)
unfolding find_option
each_option-groups_example =
    each_option-groups unset_switch (text ":fv") (text "unset")
      (text "vf" ∷ text "v" ∷ text "f" ∷ []) (text "x" ∷ []) 5 false true left_over refl
      (refl, (refl, refl, (refl, refl, tt)), (refl, (refl, refl, tt), (refl, (refl, refl, tt), tt)))
      refl vf_is_f (omega arith)

-- Behind an attached argument `optpos` is not reset, so the word that follows is read from its third
-- byte on.
stale_position :
    getopt
      (text "x" ∷ text "-ab" ∷ text "-c" ∷ [])
      (text "ab:c")
      (record { optarg = some (text "b"); optind = 2; optopt = 0; optpos = 2 })
    ≡ ok (some b'?', record { optarg = none; optind = 2; optopt = 0; optpos = 2 })
unfolding getopt getopt_from restarted in_word char_at find_option
stale_position = refl

abbrev with_x : State
with_x = env_set state_create (text "x") (text "1") attrib_none

with_x-HasTables : HasTables with_x
with_x-HasTables =
    env_set-HasTables state_create (text "x") (text "1") attrib_none state_create-HasTables

value_x : env_get with_x (text "x") ≡ some (record { value = text "1"; attribs = attrib_none })
unfolding str_eq
value_x =
    env_get-set state_create (text "x") (text "1") attrib_none (text "x") state_create-HasTables
    ∙ refl

same_value : (v w : Variable) → some v ≡ some w → v ≡ w
same_value v w e = cc

x_is_writable : AreWritable with_x (text "x" ∷ [])
x_is_writable = (
  λ v e.
      let p : record { value = text "1"; attribs = attrib_none } ≡ v =
        same_value _ v (sym value_x ∙ e) in
      rw (← p) refl,
  tt,
)

-- The strings of the name and of five parameters stand at 10 to 15.
abbrev five_params : Shifted
five_params = record {
  exit = negsuc 0;
  interactive = false;
  params = record { argv = 10 ∷ 11 ∷ 12 ∷ 13 ∷ 14 ∷ 15 ∷ 0 ∷ []; argc = 6; freed = [] };
}

-- Reads nothing.
abbrev no_strtol : Strtol
no_strtol str = record { value = pos 0; end = 0; errno = false }

builtin_shift-one_example : builtin_shift no_strtol (text "shift" ∷ []) five_params ≡ (
  pos 0,
  record five_params {
    params = record { argv = 10 ∷ 12 ∷ 13 ∷ 14 ∷ 15 ∷ 15 ∷ 0 ∷ []; argc = 5; freed = [] };
  },
)
builtin_shift-one_example =
    builtin_shift-one no_strtol (text "shift") five_params 10 11 (12 ∷ 13 ∷ 14 ∷ 15 ∷ []) (0 ∷ [])
      []

-- `shift 2`: the last parameter is not moved down, and the string of the first one left is freed.
shift_two : shift_by (pos 2) five_params ≡ (
  pos 0,
  record five_params {
    params = record { argv = 10 ∷ 13 ∷ 14 ∷ 13 ∷ 14 ∷ 15 ∷ 0 ∷ []; argc = 4; freed = 13 ∷ [] };
  },
)
unfolding shift_by shift_params shift_param
shift_two = refl

abbrev two_aliases : Hashtable Text
two_aliases =
    (Hashtable.put (Hashtable.put Hashtable.empty (text "ll") (some (text "ls -l"))).1 (text "la")
      (some (text "ls -a"))).1

-- `unalias -a`
get-delete_all_example : Hashtable.get (delete_all two_aliases) (text "ll") ≡ none
get-delete_all_example = get-delete_all two_aliases (text "ll") (
    put-IsValid (Hashtable.put Hashtable.empty (text "ll") (some (text "ls -l"))).1 (text "la")
      (some (text "ls -a"))
      (put-IsValid Hashtable.empty (text "ll") (some (text "ls -l")) empty-IsValid))

unset_names-env_example :
    (t : State) × (unset_names false (text "x" ∷ []) with_x ≡ returned 0 t)
    × ((q : Text) → env_get t q ≡ (if among q (text "x" ∷ []) then none else env_get with_x q))
unset_names-env_example = unset_names-env (text "x" ∷ []) with_x with_x-HasTables x_is_writable
