-- ===== src/Word/Parameter/Table.antt =====
-- `apply_parameter_cond_op` against the table of parameter expansions in the POSIX standard.
use mrsh.Base.{ℤ, pos, negsuc, ◌≡◌, refl, Bool, true, false, ok, [], ◌∷◌, Text, ℕ}
use mrsh.Ast.{Word, OptWord, ParameterOp, string, no_word, a_word}
use mrsh.Shell.{State, env_set, attrib_none}
use mrsh.Ast.Copy.{word_copy}
use mrsh.Word.Str.{word_str, is_null_word-str, copy_word_or_null}
use mrsh.Word.Parameter.{
  Expansion, lacks_value, assign_default, report_unset, substitute_word, apply_parameter_cond_op,
}

-- `-`, `=`, `?` and `+`.
pub data Form : Type 0 where
  use_default assign indicate_error use_alternative : Form

abbrev pub op_of : Form → ParameterOp
op_of use_default = ParameterOp.minus
op_of assign = ParameterOp.equal
op_of indicate_error = ParameterOp.qmark
op_of use_alternative = ParameterOp.plus

pub data Condition : Type 0 where
  unset set_but_null set_and_not_null : Condition

-- What the standard has the expansion do. The shell of an error is not ended here.
pub data Action : Type 0 where
  substitute_parameter substitute_argument assign_word indicate_failure substitute_null : Action

-- The table: the form, whether it has the colon, and what is known of the parameter.
unfoldable pub table : Form → Bool → Condition → Action
table use_default colon set_and_not_null = substitute_parameter
table use_default true set_but_null = substitute_argument
table use_default false set_but_null = substitute_parameter
table use_default colon unset = substitute_argument
table assign colon set_and_not_null = substitute_parameter
table assign true set_but_null = assign_word
table assign false set_but_null = substitute_parameter
table assign colon unset = assign_word
table indicate_error colon set_and_not_null = substitute_parameter
table indicate_error true set_but_null = indicate_failure
table indicate_error false set_but_null = substitute_parameter
table indicate_error colon unset = indicate_failure
table use_alternative colon set_and_not_null = substitute_argument
table use_alternative true set_but_null = substitute_null
table use_alternative false set_but_null = substitute_argument
table use_alternative colon unset = substitute_null

abbrev pub HasCondition : OptWord → Condition → Type 0
HasCondition no_word unset = Unit
HasCondition (a_word w) set_but_null = word_str w ≡ ok []
HasCondition (a_word w) set_and_not_null = (c : ℕ) × (str : Text) × (word_str w ≡ ok (c ∷ str))
HasCondition _ _ = ⊥

has_value :
    (colon : Bool) (w : Word)
    → HasCondition (a_word w) set_and_not_null
    → lacks_value colon (a_word w) ≡ ok false
unfolding lacks_value
has_value true w (c, str, e) = is_null_word-str w (c ∷ str) e
has_value false w h = refl

-- With an argument whose copy is `copy`, which `run_word` turns into `expanded` with the string
-- `str`, leaving `later`: the value, the name and the state before. Statuses are 0, and -2 for an error.
unfoldable pub perform : Action → OptWord → Text → Word → Word → Text → State → State → Expansion
perform substitute_parameter value name copy expanded str s later = ok (pos 0, value, s)
perform substitute_argument value name copy expanded str s later = ok (pos 0, a_word copy, s)
perform assign_word value name copy expanded str s later =
    ok (pos 0, a_word expanded, env_set later name str attrib_none)
perform indicate_failure value name copy expanded str s later = ok (negsuc 1, no_word, later)
perform substitute_null value name copy expanded str s later =
    ok (pos 0, a_word (string [] false false), s)

module _ (run_word : Word → State → ℤ × Word × State) (name : Text) (arg copy expanded : Word)
    (str : Text) (s later : State) (n : ℕ) (copied : word_copy arg ≡ ok copy)
    (runs : run_word copy s ≡ (pos n, expanded, later)) (read : word_str expanded ≡ ok str) where
  abbrev applied : Form → Bool → OptWord → Expansion
  applied form colon value =
      apply_parameter_cond_op run_word (op_of form) colon name (a_word arg) value s

  abbrev performed : Action → OptWord → Expansion
  performed action value = perform action value name copy expanded str s later

  substitutes : substitute_word (a_word arg) s ≡ ok (pos 0, a_word copy, s)
  unfolding substitute_word copy_word_or_null
  substitutes = rw copied refl

  assigns :
      assign_default run_word name (a_word arg) s
      ≡ ok (pos 0, a_word expanded, env_set later name str attrib_none)
  unfolding assign_default copy_word_or_null
  assigns = rw (copied, runs, read) refl

  reports : report_unset run_word (a_word arg) s ≡ ok (negsuc 1, no_word, later)
  unfolding report_unset
  reports = rw (copied, runs, read) refl

  -- The parameter lacks a value, or it has one.
  lacking :
      (form : Form) (colon : Bool) (value : OptWord)
      → lacks_value colon value ≡ ok true
      → applied form colon value ≡ performed (table form true unset) value
  unfolding apply_parameter_cond_op table perform
  lacking use_default colon value h = rw h substitutes
  lacking assign colon value h = rw h assigns
  lacking indicate_error colon value h = rw h reports
  lacking use_alternative colon value h = rw h refl

  having :
      (form : Form) (colon : Bool) (value : OptWord)
      → lacks_value colon value ≡ ok false
      → applied form colon value ≡ performed (table form true set_and_not_null) value
  unfolding apply_parameter_cond_op table perform
  having use_default colon value h = rw h refl
  having assign colon value h = rw h refl
  having indicate_error colon value h = rw h refl
  having use_alternative colon value h = rw h substitutes

  -- For a parameter that is unset, set but null, or set and not null, with and without a colon, and an
  -- argument that is copied and expands without failure, to a word that has a string: each of the forms
  -- `-`, `=`, `?` and `+` does what its entry of the standard's table says. The argument is
  -- substituted as a copy that is still to be expanded; an assignment gives the name the string of the
  -- expansion, in the state that this leaves; and the error is the negative status that is returned
  -- once the message is expanded.
  pub apply_parameter_cond_op-table :
      (form : Form) (colon : Bool) (value : OptWord) (condition : Condition)
      → HasCondition value condition
      → apply_parameter_cond_op run_word (op_of form) colon name (a_word arg) value s
        ≡ perform (table form colon condition) value name copy expanded str s later
  unfolding lacks_value table
  apply_parameter_cond_op-table use_default colon no_word unset h =
      lacking use_default colon no_word refl
  apply_parameter_cond_op-table assign colon no_word unset h = lacking assign colon no_word refl
  apply_parameter_cond_op-table indicate_error colon no_word unset h =
      lacking indicate_error colon no_word refl
  apply_parameter_cond_op-table use_alternative colon no_word unset h =
      lacking use_alternative colon no_word refl
  apply_parameter_cond_op-table use_default true (a_word w) set_but_null h =
      lacking use_default true (a_word w) (is_null_word-str w [] h)
  apply_parameter_cond_op-table assign true (a_word w) set_but_null h =
      lacking assign true (a_word w) (is_null_word-str w [] h)
  apply_parameter_cond_op-table indicate_error true (a_word w) set_but_null h =
      lacking indicate_error true (a_word w) (is_null_word-str w [] h)
  apply_parameter_cond_op-table use_alternative true (a_word w) set_but_null h =
      lacking use_alternative true (a_word w) (is_null_word-str w [] h)
  apply_parameter_cond_op-table use_default false (a_word w) set_but_null h =
      having use_default false (a_word w) refl
  apply_parameter_cond_op-table assign false (a_word w) set_but_null h =
      having assign false (a_word w) refl
  apply_parameter_cond_op-table indicate_error false (a_word w) set_but_null h =
      having indicate_error false (a_word w) refl
  apply_parameter_cond_op-table use_alternative false (a_word w) set_but_null h =
      having use_alternative false (a_word w) refl
  apply_parameter_cond_op-table use_default colon (a_word w) set_and_not_null h =
      having use_default colon (a_word w) (has_value colon w h)
  apply_parameter_cond_op-table assign colon (a_word w) set_and_not_null h =
      having assign colon (a_word w) (has_value colon w h)
  apply_parameter_cond_op-table indicate_error colon (a_word w) set_and_not_null h =
      having indicate_error colon (a_word w) (has_value colon w h)
  apply_parameter_cond_op-table use_alternative colon (a_word w) set_and_not_null h =
      having use_alternative colon (a_word w) (has_value colon w h)
  apply_parameter_cond_op-table form colon (a_word w) unset h = elim h [ ]
  apply_parameter_cond_op-table form colon no_word set_but_null h = elim h [ ]
  apply_parameter_cond_op-table form colon no_word set_and_not_null h = elim h [ ]
