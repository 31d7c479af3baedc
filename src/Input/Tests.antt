-- ===== src/Input/Tests.antt =====
-- shell_util.h and read_op.h: short texts, and each theorem at them.
use openmi_base.Base.{◌≡◌, refl, true, false, Bool, [], ◌∷◌, ◌++◌, some, arith}
use openmi_base.Base.Int.{pos}
use openmi_base.Base.Dict.{Text}
use openmi_base.Base.Format.{codes}
use openmi_base.DString.{split, split_from}
use openmi_base.DString.Join.{terminated, without, all_without}
use openmi_base.Input.Shell.{returns, outside, exec}
use openmi_base.Input.Shell.Items.{exec-split, exec_zero_line}
use openmi_base.Input.Mapped.{
  Answers, Mappings, MemoryMap, load, map_file, close_map, text_content_of, new_memory_map,
}
use openmi_base.Input.Mapped.Leaks.{mapped, loaded, text_content_of_lem, close_map-load}

abbrev two_lines : Text
two_lines = codes "ab" ++ 10 ∷ codes "c"

exec-split_example : exec (some two_lines) [] ≡ returns (pos 0, split 10 false two_lines)
unfolding without split split_from
exec-split_example = exec-split two_lines [] refl (omega arith, (omega arith, tt))

exec_zero_line_example : exec (some (terminated 10 (codes "ab" ∷ []) ++ 0 ∷ codes "c")) [] ≡ outside
unfolding without all_without
exec_zero_line_example = exec_zero_line (codes "ab" ∷ []) (codes "c") [] refl refl (omega arith, tt)

abbrev answers : Answers
answers = record { opens = λ path. some two_lines; stats = true; maps = true; closes = true }

abbrev mappings : Mappings
mappings = record { next = 1; live = (0, 5 ∷ []) ∷ [] }

abbrev one_map : MemoryMap
one_map = record { store = some 0; size = 1 }

text_content_of_lem_example :
    text_content_of 8 answers (codes "f") mappings one_map
    ≡ some (mapped 8 mappings two_lines, loaded mappings two_lines, two_lines)
unfolding without
text_content_of_lem_example =
    text_content_of_lem 8 (omega arith) answers 102 [] 97 (98 ∷ 10 ∷ 99 ∷ []) mappings one_map
      (record { stats_ok = refl; maps_ok = refl; closes_ok = refl }) refl refl

loads :
    load 8 answers (some (codes "f")) mappings one_map
    ≡ some (mapped 8 mappings two_lines, loaded mappings two_lines, true)
unfolding load map_file
loads = refl

close_map-load_example :
    (◌≡◌ {A = Bool} true true)
    × (close_map (mapped 8 mappings two_lines) (loaded mappings two_lines)
        ≡ some (record { next = 2; live = mappings.live }, new_memory_map))
close_map-load_example =
    close_map-load 8 answers (some (codes "f")) mappings (mapped 8 mappings two_lines) one_map
      (loaded mappings two_lines) true (omega arith, tt) loads
