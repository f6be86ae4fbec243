-- ===== src/Unload/Tests.antt =====
-- unload.c: runs at concrete inputs.
use lkm_practice.Base.{◌≡◌, refl, some, none, List, [], ◌∷◌}
use lkm_practice.Unload.{Module, find_mod, at_index, init}

-- Two modules, of which the second is going away and has five references.
abbrev modules : List Module
modules =
    record { name = 97 ∷ []; state = 0; refcnt = 1 }
    ∷ record { name = 103 ∷ []; state = 2; refcnt = 5 }
    ∷ []

second_revived :
    init 0 (103 ∷ []) modules
    ≡ some (
        record { name = 97 ∷ []; state = 0; refcnt = 1 }
        ∷ record { name = 103 ∷ []; state = 0; refcnt = 1 }
        ∷ [])
unfolding init find_mod at_index
second_revived = refl

missing : init 0 (98 ∷ []) modules ≡ none
unfolding init find_mod at_index
missing = refl
