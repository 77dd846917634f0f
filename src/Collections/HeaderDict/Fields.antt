-- ===== src/Collections/HeaderDict/Fields.antt =====
-- The values of one header field: a list that is never empty.
use urllib.Prelude.{List, [], ◌∷◌, ◌++◌, append_assoc, ◌≡◌, refl}
use urllib.Prelude.Text.{Text, codes}

pub data Values : Type 0 where
  one : Text → Values
  more : Text → Values → Values

abbrev pub to_list : Values → List Text
to_list (one v) = v ∷ []
to_list (more v vs) = v ∷ to_list vs

-- `vals.append(val)`
abbrev pub append_value : Values → Text → Values
append_value (one v) val = more v (one val)
append_value (more v vs) val = more v (append_value vs val)

-- `vals[-1] = vals[-1] + ", " + val`
abbrev pub extend_last : Values → Text → Values
extend_last (one v) val = one (v ++ (codes ", " ++ val))
extend_last (more v vs) val = more v (extend_last vs val)

-- `sep.join(vals)`
abbrev pub join : Text → List Text → Text
join sep [] = []
join sep (v ∷ []) = v
join sep (v ∷ w ∷ vs) = v ++ (sep ++ join sep (w ∷ vs))

pub to_list-append_value :
    (vs : Values) (val : Text) → to_list (append_value vs val) ≡ to_list vs ++ val ∷ []
to_list-append_value (one v) val = refl
to_list-append_value (more v vs) val = rw (to_list-append_value vs val)

join_more :
    (sep v : Text) (vs : Values) → join sep (v ∷ to_list vs) ≡ v ++ (sep ++ join sep (to_list vs))
join_more sep v (one w) = refl
join_more sep v (more w vs) = refl

-- A new value, appended or combined with the last, shows in the merged text in one way.
pub join-append_value :
    (sep : Text) (vs : Values) (val : Text)
    → join sep (to_list (append_value vs val)) ≡ join sep (to_list vs) ++ (sep ++ val)
join-append_value sep (one v) val = refl
join-append_value sep (more v vs) val =
    rw (join_more sep v (append_value vs val), join-append_value sep vs val, join_more sep v vs)
      (simp append_assoc)

pub join-extend_last :
    (vs : Values) (val : Text)
    → join (codes ", ") (to_list (extend_last vs val))
      ≡ join (codes ", ") (to_list vs) ++ (codes ", " ++ val)
join-extend_last (one v) val = refl
join-extend_last (more v vs) val =
    rw
      (
        join_more (codes ", ") v (extend_last vs val),
        join-extend_last vs val,
        join_more (codes ", ") v vs,
      )
      (simp append_assoc)
