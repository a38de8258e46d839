-- ===== src/Update/Tests.antt =====
-- An update of two files, one of them new, that is cut short in the second.
use generatorpi.Base.{
  string_key, Dict, lookup, insert, erase, String, ◌≡◌, refl, true, some, List, [], ◌∷◌, arith,
}
use Prim.Native.String.{◌++◌ as append}
use generatorpi.Update.{
  Tree, rollback, make_backup, interrupted_swap, backed_up, mode_of, write_file, swap_file, swap,
  half_swap, unlink_all, extract_all,
}
use generatorpi.Update.Restore.{rollback_restores}
use generatorpi.Update.Interrupted.{swap_installs}

abbrev sibling : String → String
sibling p = append p ".gpnew"

abbrev release : List String
release = "setup.sh" ∷ "genpi/new.py" ∷ []

abbrev downloads : Dict String String
downloads = ("setup.sh", "new setup") ∷ ("genpi/new.py", "new code") ∷ []

abbrev installed : Tree String
installed =
    ("setup.sh", record { content = "old setup"; mode = 493 })
    ∷ ("events.db", record { content = "data"; mode = 420 })
    ∷ []

after_swap :
    interrupted_swap sibling 420 downloads 1 true release installed
    ≡ ("setup.sh", record { content = "new setup"; mode = 493 })
      ∷ ("events.db", record { content = "data"; mode = 420 })
      ∷ ("genpi/new.py.gpnew", record { content = "new code"; mode = 420 })
      ∷ []
unfolding interrupted_swap swap swap_file half_swap write_file mode_of lookup insert erase
after_swap = refl

-- The temporary of the file that was cut short stays.
after_rollback :
    rollback 420
      (make_backup release installed)
      (interrupted_swap sibling 420 downloads 1 true release installed)
    ≡ ("setup.sh", record { content = "old setup"; mode = 493 })
      ∷ ("events.db", record { content = "data"; mode = 420 })
      ∷ ("genpi/new.py.gpnew", record { content = "new code"; mode = 420 })
      ∷ []
unfolding rollback make_backup backed_up unlink_all extract_all interrupted_swap swap swap_file
    half_swap write_file mode_of lookup insert erase
after_rollback = refl

rollback_restores_example :
    lookup "setup.sh" (
      rollback 420
        (make_backup release installed)
        (interrupted_swap sibling 420 downloads 1 true release installed))
    ≡ lookup "setup.sh" installed
rollback_restores_example =
    rollback_restores sibling 420 downloads release installed 1 true "setup.sh" (
      ground (arith, string_key.same_iff "setup.sh.gpnew" "setup.sh"),
      (ground (arith, string_key.same_iff "genpi/new.py.gpnew" "setup.sh"), tt),
    )

swap_installs_example :
    (c : String) × (lookup "setup.sh" downloads ≡ some c)
    × (lookup "setup.sh" (swap sibling 420 downloads release installed).1
        ≡ some (record { content = c; mode = mode_of 420 (lookup "setup.sh" installed) }))
unfolding swap swap_file write_file lookup
swap_installs_example =
    swap_installs sibling 420 downloads "setup.sh" release installed
      (
        ground (arith, string_key.same_iff "setup.sh.gpnew" "setup.sh"),
        (ground (arith, string_key.same_iff "genpi/new.py.gpnew" "setup.sh"), tt),
      )
      refl refl
