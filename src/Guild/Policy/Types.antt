-- ===== src/Guild/Policy/Types.antt =====
-- The list of safe attachment types: trimmed, in lower case, with no empty text, sorted and with no
-- repetition.
use sync_server.Prelude.{◌≡◌, refl, List, [], ◌∷◌, String, str_eq, All, filter, not, map, arith}
use sync_server.Prelude.Text.{clean, clean-clean}
use sync_server.Prelude.Sort.{IsStrictlySorted, sorted_set_of_sorted, sorted_set-All}
use sync_server.Guild.Policy.{normal_attachment_types}
use sync_server.Guild.Policy.Valid.{IsClean}

cleaned :
    (types : List String) → All IsClean (filter (λ value. not (str_eq value "")) (map clean types))
cleaned [] = tt
cleaned (t ∷ types) = ground (arith, clean-clean t, cleaned types)

pub normal_attachment_types-IsClean :
    (types : List String) → All IsClean (normal_attachment_types types)
unfolding normal_attachment_types
normal_attachment_types-IsClean types = sorted_set-All IsClean _ (cleaned types)

clean_same :
    (types : List String)
    → All IsClean types
    → filter (λ value. not (str_eq value "")) (map clean types) ≡ types
clean_same [] h = refl
clean_same (t ∷ types) h = ground (arith, clean_same types h.1)

pub normal_attachment_types_same :
    (types : List String)
    → All IsClean types
    → IsStrictlySorted types
    → normal_attachment_types types ≡ types
unfolding normal_attachment_types
normal_attachment_types_same types h s = rw (clean_same types h) (sorted_set_of_sorted types s)
