-- ===== src/Volume/Names.antt =====
-- The names of volumes: which ids and names belong together.
use datafoundry_proxy.Base.{
  has_prefix, ℕ, zero, suc, ◌≡◌, refl, sym, ap, ◌∙◌, subst, ◌↔◌, true, [], ◌∷◌, ◌++◌, Str, str_eq,
  str_eq_iff, take, drop, length,
}
use datafoundry_proxy.Volume.{volume_prefix, volume_id2volume_name, volume_name2volume_id}

take-drop : (n : ℕ) (s : Str) → take n s ++ drop n s ≡ s
take-drop zero s = refl
take-drop (suc n) [] = refl
take-drop (suc n) (c ∷ s) = ap (λ t. c ∷ t) (take-drop n s)

has_prefix-append :
    (s : Str)
    → (has_prefix volume_prefix (volume_prefix ++ s) ≡ true)
      × (volume_name2volume_id (volume_prefix ++ s) ≡ s)
unfolding has_prefix str_eq volume_name2volume_id
has_prefix-append s = (refl, refl)

-- A text is the name of the volume of an id exactly if it begins with "vol_" and the id is what
-- `VolumeName2VolumeId` reads from it: ids come back, and different ids have different names.
pub volume_id2volume_name_iff :
    (id name : Str)
    → (volume_id2volume_name id ≡ name)
      ↔ ((has_prefix volume_prefix name ≡ true) × (volume_name2volume_id name ≡ id))
unfolding volume_id2volume_name has_prefix volume_name2volume_id
volume_id2volume_name_iff id name = (
  λ e.
      subst (λ n. (has_prefix volume_prefix n ≡ true) × (volume_name2volume_id n ≡ id)) e
        (has_prefix-append id),
  λ (prefixed, read).
      let front = (str_eq_iff (take (length volume_prefix) name) volume_prefix).0 prefixed in
      let behind : drop (length volume_prefix) name ≡ id = rw prefixed at read in
      sym (ap (λ t. volume_prefix ++ t) behind)
      ∙ ap (λ t. t ++ drop (length volume_prefix) name) (sym front)
      ∙ take-drop (length volume_prefix) name,
)
