-- ===== src/Chain/Immune/Tests.antt =====
-- core.go's immune-node records at concrete inputs.
use synthos_collective.Prelude.{◌≡◌, refl, false}
use synthos_collective.Dict.{lookup, insert}
use synthos_collective.Chain.Types.{new_state}
use synthos_collective.Chain.Immune.{ensure_immune_node}

created_once :
    let s = (ensure_immune_node "a" "h" 5 new_state).1 in (ensure_immune_node "a" "g" 6 s).0 ≡ false
unfolding ensure_immune_node new_state lookup insert
created_once = refl
