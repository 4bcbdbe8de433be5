-- ===== src/BusPath/Tests.antt =====
-- nih-dbus/dbus_util.c run on strings.
use libnih.Prelude.{◌≡◌, refl, arith, true, none, some, [], ◌∷◌, ◌++◌}
use libnih.CString.{Bytes, codes}
use libnih.BusPath.{dbus_path, args_loop, start_element, escape_loop, args_len, element_len}
use libnih.BusPath.Whole.{dbus_path_lem}
use libnih.BusPath.Decoded.{dbus_path-decoded, each, unescape, pieces}
use libnih.BusPath.Overrun.{dbus_path-overruns}

path :
    dbus_path true 7 (codes "/com") (codes "a.b" ∷ [] ∷ [])
    ≡ some (some (codes "/com/a_2eb/_" ++ 0 ∷ []))
unfolding dbus_path args_loop start_element escape_loop args_len element_len
path = refl

dbus_path_lem_example :
    dbus_path true 7 (codes "/com") (codes "a.b" ∷ [] ∷ [])
    ≡ some (some (codes "/com/a_2eb/_" ++ 0 ∷ []))
dbus_path_lem_example =
    dbus_path_lem true 7 (codes "/com") (codes "a.b" ∷ [] ∷ [])
      ((omega arith, (omega arith, (omega arith, tt))), (tt, tt))

dbus_path-decoded_example :
    (text : Bytes) × (dbus_path true 7 (codes "/com") (codes "a.b" ∷ [] ∷ [])
      ≡ some (some (codes "/com" ++ text ++ 0 ∷ [])))
    × (each unescape (pieces text).1 ≡ codes "a.b" ∷ [] ∷ [])
dbus_path-decoded_example =
    dbus_path-decoded 7 (codes "/com") (codes "a.b" ∷ [] ∷ [])
      ((omega arith, (omega arith, (omega arith, tt))), (tt, tt))

dbus_path-overruns_example :
    dbus_path true 7 (codes "/com") (codes "a.b" ∷ (97 ∷ 233 ∷ []) ∷ []) ≡ none
dbus_path-overruns_example =
    dbus_path-overruns 7 (codes "/com") (codes "a.b" ∷ []) (97 ∷ []) 233
      ((omega arith, (omega arith, (omega arith, tt))), tt) (omega arith, tt) (omega arith)
