-- ===== src/Release/Tests.antt =====
-- Versions, gates and manifests at concrete values.
use generatorpi.Release.Watch.{update_check_loop, watch_once, fresh_watch}
use generatorpi.Base.{
  All, Any, pos, negsuc, Bytes, codes, lower, ends_with, all_chars, member, ℕ, String, ◌≡◌, refl,
  ◌↔◌, true, false, Option, none, some, List, [], ◌∷◌, bytes_key, nat_key,
}
use generatorpi.Release.{
  run_update_check, is_newer, version_tuple, part_number, signed, digits, negated, before, is_older,
  Incompatible, reasons, gates_of, gate_ver, without_v, is_crossed, crossed, blocking,
}
use generatorpi.Release.Blocked.{blocking_exact, Blocks}
use generatorpi.Release.Manifest.{
  ReleaseFile, Dependency, validate_manifest_paths, is_unsafe, parts, is_secret, is_package,
  apt_char, packages, install_line, dependency_install_command, validate_version, version_char,
}
use generatorpi.Release.Confined.{
  walk, denied_ends, Below, target, validated_stays_inside, command_char, command_is_plain,
}

odd_tuple :
    version_tuple (codes "1.-2. 3 .x.1_0._1")
    ≡ pos 1 ∷ negsuc 1 ∷ pos 3 ∷ pos 0 ∷ pos 10 ∷ pos 0 ∷ []
unfolding version_tuple part_number signed digits negated
odd_tuple = refl

abbrev gates : Incompatible
gates = reasons (
    (codes "v1.4.0", codes "new unit")
    ∷ (codes "1.10", codes " new layout ")
    ∷ (codes "3.0", [])
    ∷ [])

blocked : blocking (λ gs. gs) (codes "1.2") (codes "2.0") gates ≡ codes "1.4.0" ∷ codes "1.10" ∷ []
unfolding blocking crossed gates_of gate_ver without_v is_crossed is_older before version_tuple
    part_number signed digits negated
blocked = refl

-- A published version with a `v` in front reads as 0.
tagged_version : blocking (λ gs. gs) (codes "1.2") (codes "v2.0") gates ≡ []
unfolding blocking crossed gates_of gate_ver without_v is_crossed is_older before version_tuple
    part_number signed digits negated
tagged_version = refl

blocking_exact_example :
    (member (codes "1.4.0") (blocking (λ gs. gs) (codes "1.2") (codes "2.0") gates) ≡ true)
    ↔ Any (λ kv. Blocks (codes "1.2") (codes "2.0") kv.0 (codes "1.4.0")) (gates_of gates)
blocking_exact_example =
    blocking_exact (λ gs. gs) (λ g gs. refl) (codes "1.2") (codes "2.0") gates (codes "1.4.0")

abbrev shipped : List (ReleaseFile ℕ)
shipped =
    record { path = "genpi/./new.py"; sha256 = 7; bytes = 10 }
    ∷ record { path = "setup.sh"; sha256 = 8; bytes = 20 }
    ∷ []

validated_stays_inside_example :
    All
      (λ f.
        Below (codes "app" ∷ []) (target (codes "app" ∷ []) (codes f.path))
        × All (λ e. ends_with e (lower (codes f.path)) ≡ false) denied_ends)
      shipped
unfolding validate_manifest_paths is_unsafe parts is_secret
validated_stays_inside_example = validated_stays_inside (codes "app" ∷ []) shipped refl

abbrev needs : String → Dependency
needs p = record {
  module_name = some (codes "m");
  apt = some (codes p);
  feature = [];
  is_required = false;
}

-- A name that ends in a line feed passes, and starts a second line.
second_line :
    dependency_install_command (needs "x\n" ∷ needs "y" ∷ needs "x; rm" ∷ [])
    ≡ codes "sudo apt install -y x\n y"
unfolding dependency_install_command packages is_package apt_char install_line
second_line = refl

feed_in_version : validate_version (codes "1.2\n") ≡ none
unfolding validate_version version_char
feed_in_version = refl

command_is_plain_example :
    all_chars command_char (dependency_install_command (needs "python3-flask" ∷ [])) ≡ true
command_is_plain_example = command_is_plain (needs "python3-flask" ∷ [])

abbrev polls : List (Option Bytes × ℕ)
polls = (none, 30) ∷ (some (codes "1.2"), 60) ∷ (some (codes "1.3"), 90) ∷ []

announced_once :
    (update_check_loop (codes "1.1") polls fresh_watch).announced ≡ some (codes "1.2") ∷ []
unfolding update_check_loop watch_once run_update_check is_newer is_older before version_tuple
    part_number signed digits negated
announced_once = refl

-- The settings file itself, under a path that is let through.
abbrev dotted_path : List (ReleaseFile ℕ)
dotted_path = record { path = "generator_control.env/."; sha256 = 7; bytes = 10 } ∷ []

dotted-passes : validate_manifest_paths dotted_path ≡ none
unfolding validate_manifest_paths is_unsafe parts is_secret
dotted-passes = refl

dotted-target :
    target (codes "app" ∷ []) (codes "generator_control.env/.")
    ≡ target (codes "app" ∷ []) (codes "generator_control.env")
unfolding target walk
dotted-target = refl
