-- ===== src/Builtin/Unalias.antt =====
-- The utility `unalias`: builtin/unalias.c.
pub mod Laws
use mrsh.Base.{
  ℕ, ◌==◌, not, ltb, Bool, true, false, if◌then◌else◌, List, [], ◌∷◌, Option, none, some, Text,
  text, length, drop, map,
}
use mrsh.Hashtable
use mrsh.Hashtable.{Hashtable}
use mrsh.Shell.{State}
use mrsh.Builtin.Getopt.{Getopt, all_read, rejected, aborted, out_of_fuel, each_option}
use mrsh.Builtin.Unset.{Ran, returned, stopped, unfinished}

abbrev pub unalias_switch : ℕ → Bool → Option Bool
unalias_switch opt all = if opt == b'a' then some true else none

-- The loop over the names.
unfoldable pub delete_aliases : List Text → Hashtable Text → Hashtable Text
delete_aliases [] aliases = aliases
delete_aliases (name ∷ names) aliases = delete_aliases names (Hashtable.del aliases name).1

-- The iterator removes the entry it is called with, whose successor is read before the call.
unfoldable pub delete_all : Hashtable Text → Hashtable Text
unfolding delete_aliases
delete_all aliases = delete_aliases (map (λ e. e.0) (Hashtable.for_each aliases)) aliases

unfoldable pub builtin_unalias : ℕ → Getopt → List Text → State → Ran
unfolding each_option delete_aliases delete_all
builtin_unalias fuel g argv s =
    elim (each_option unalias_switch fuel argv (text ":a") false (record g { optind = 0 })) [
      | rejected g' ↦ returned 1 s
      | aborted ↦ stopped
      | out_of_fuel ↦ unfinished
      | all_read true g' ↦
          if ltb g'.optind (length argv)
          then returned 1 s
          else returned 0 (record s { aliases = delete_all s.aliases })
      | all_read false g' ↦
          if g'.optind == length argv
          then returned 1 s
          else returned 0 (record s { aliases = delete_aliases (drop g'.optind argv) s.aliases })
    ]
