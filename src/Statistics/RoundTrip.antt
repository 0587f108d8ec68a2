-- ===== src/Statistics/RoundTrip.antt =====
-- A key of the statistics is read back as what it was made of.
use datafoundry_proxy.Base.{
  ℕ, ◌≡◌, ◌≢◌, refl, sym, ap, ◌∙◌, true, false, List, [], ◌∷◌, ◌++◌, append_assoc, none, some, Str,
  ◌==◌, All, arith,
}
use datafoundry_proxy.Statistics.{
  get_general_stat_key, stat_key, get_user_item_stat_key, at_first, at_last, split_slash,
  without_blank, parse_stat_key,
}

-- The byte does not occur.
abbrev pub Lacks : ℕ → Str → Type 0
Lacks b [] = Unit
Lacks b (c ∷ s) = ((c == b) ≡ false) × Lacks b s

at_first-none : (b : ℕ) (s : Str) → Lacks b s → at_first b s ≡ none
unfolding at_first
at_first-none b [] h = refl
at_first-none b (c ∷ s) h = ground (arith, at_first-none b s h.1)

at_last-none : (b : ℕ) (s : Str) → Lacks b s → at_last b s ≡ none
unfolding at_last
at_last-none b [] h = refl
at_last-none b (c ∷ s) h = rw (at_last-none b s h.1, h.0) refl

==_refl : (b : ℕ) → (b == b) ≡ true
==_refl b = ground arith

at_first-append : (b : ℕ) (s t : Str) → Lacks b s → at_first b (s ++ b ∷ t) ≡ some (s, t)
unfolding at_first
at_first-append b [] t h = rw (==_refl b) refl
at_first-append b (c ∷ s) t h = rw (h.0, at_first-append b s t h.1) refl

at_last-append : (b : ℕ) (s t : Str) → Lacks b t → at_last b (s ++ b ∷ t) ≡ some (s, t)
unfolding at_last
at_last-append b [] t h = rw (at_last-none b t h, ==_refl b) refl
at_last-append b (c ∷ s) t h = rw (at_last-append b s t h) refl

split_slash-word : (w : Str) → Lacks b'/' w → split_slash w ≡ w ∷ []
unfolding split_slash
split_slash-word [] h = refl
split_slash-word (c ∷ w) h = rw (h.0, split_slash-word w h.1) refl

split_slash-append : (w t : Str) → Lacks b'/' w → split_slash (w ++ b'/' ∷ t) ≡ w ∷ split_slash t
unfolding split_slash
split_slash-append [] t h = refl
split_slash-append (c ∷ w) t h = rw (h.0, split_slash-append w t h.1) refl

-- The words of a key: none is one blank word.
abbrev pub AreWords : List Str → Type 0
AreWords words = All (Lacks b'/') words × (words ≢ [] ∷ [])

split_slash-join :
    (w : Str) (l : List Str)
    → All (Lacks b'/') (w ∷ l)
    → split_slash (get_general_stat_key (w ∷ l)) ≡ w ∷ l
unfolding get_general_stat_key
split_slash-join w [] h = split_slash-word w h.0
split_slash-join w (v ∷ l) h =
    split_slash-append w (get_general_stat_key (v ∷ l)) h.0
    ∙ ap (λ t. w ∷ t) (split_slash-join v l h.1)

without_blank-words : (l : List Str) → l ≢ [] ∷ [] → without_blank l ≡ l
without_blank-words [] h = refl
without_blank-words ([] ∷ []) h = absurd (h refl)
without_blank-words ([] ∷ v ∷ l) h = refl
without_blank-words ((c ∷ w) ∷ l) h = refl

words_lem :
    (words : List Str)
    → AreWords words
    → without_blank (split_slash (get_general_stat_key words)) ≡ words
unfolding split_slash get_general_stat_key
words_lem [] h = refl
words_lem (w ∷ l) h = ap without_blank (split_slash-join w l h.0) ∙ without_blank-words (w ∷ l) h.1

Lacks-append : (b : ℕ) (s t : Str) → Lacks b s → Lacks b t → Lacks b (s ++ t)
Lacks-append b [] t h k = k
Lacks-append b (c ∷ s) t h k = (h.0, Lacks-append b s t h.1 k)

Lacks-join : (words : List Str) → All (Lacks b'$') words → Lacks b'$' (get_general_stat_key words)
unfolding get_general_stat_key
Lacks-join [] h = tt
Lacks-join (w ∷ []) h = h.0
Lacks-join (w ∷ v ∷ l) h = Lacks-append b'$' w _ h.0 (refl, Lacks-join (v ∷ l) h.1)

-- The key of a statistic of an object is parsed into the words and the name that it was made of,
-- with no date and no user, if the name has no '#' and the words have no '/' and no '$' and are not
-- one blank word.
pub parse_stat_key-stat_key :
    (name : Str) (words : List Str)
    → Lacks b'#' name
    → AreWords words
    → All (Lacks b'$') words
    → parse_stat_key (stat_key name words)
      ≡ record { date = []; user = []; item_keys = words; stat_name = name }
unfolding parse_stat_key stat_key
parse_stat_key-stat_key name words h k d =
    rw
      (
        at_last-append b'#' (get_general_stat_key words) name h,
        at_first-none b'$' (get_general_stat_key words) (Lacks-join words d),
        words_lem words k,
      )
      refl

-- The key of a statistic of a user's object is parsed into the user, the words and the name, if the
-- name has no '#', the user's name has no '$', and the words have no '/' and are not one blank word;
-- the words may have a '$' here.
pub parse_stat_key-get_user_item_stat_key :
    (user name : Str) (words : List Str)
    → Lacks b'$' user
    → Lacks b'#' name
    → AreWords words
    → parse_stat_key (get_user_item_stat_key user (stat_key name words))
      ≡ record { date = []; user = user; item_keys = words; stat_name = name }
unfolding parse_stat_key stat_key get_user_item_stat_key
parse_stat_key-get_user_item_stat_key user name words u h k =
    let key : user ++ b'$' ∷ (get_general_stat_key words ++ b'#' ∷ name)
        ≡ (user ++ b'$' ∷ get_general_stat_key words) ++ b'#' ∷ name =
      sym (append_assoc user (b'$' ∷ get_general_stat_key words) (b'#' ∷ name)) in
    rw
      (
        key,
        at_last-append b'#' (user ++ b'$' ∷ get_general_stat_key words) name h,
        at_first-append b'$' user (get_general_stat_key words) u,
        words_lem words k,
      )
      refl
