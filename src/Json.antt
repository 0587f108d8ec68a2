-- ===== src/Json.antt =====
-- The texts that encoding/json reads and writes, as syntax trees, and the part of its decoder that
-- the program uses: an object goes into a struct key by key, a null changes nothing, a key that
-- names no field is passed over, and a value of the wrong kind is an error that ends the decoding
-- of that value alone. Keys are compared as Go does it, without regard to (ASCII) case.
pub mod Codec
use datafoundry_proxy.Base.{
  ℕ, ◌+◌, ◌≡◌, refl, Bool, true, false, ◌&&◌, List, [], ◌∷◌, Str, codes, str_eq, leb, String,
  if◌then◌else◌,
}
use datafoundry_proxy.Base.Int.{ℤ, in_int64}

-- `num` is a number that has an integer value, and `frac` any other number.
mutual
  pub data Json : Type 0 where
    null : Json
    bool : Bool → Json
    num : ℤ → Json
    frac : Json
    str : Str → Json
    arr : Items → Json
    obj : Fields → Json

  pub data Items : Type 0 where
    nil : Items
    cons : Json → Items → Items

  pub data Fields : Type 0 where
    end : Fields
    field : Str → Json → Fields → Fields

-- Lower-case ASCII letters for upper-case ones.
fold_byte : ℕ → ℕ
fold_byte c = if leb b'A' c && leb c b'Z' then c + 32 else c

fold_key : Str → Str
fold_key [] = []
fold_key (c ∷ s) = fold_byte c ∷ fold_key s

-- Does the key name the field? The field's name is written in lower case.
unfoldable pub key_is : Str → String → Bool
unfolding str_eq fold_byte fold_key
key_is k name = str_eq (fold_key k) (codes name)

-- A decoder stores a value into a variable of Go, and says whether that went without an error.
abbrev pub Decoder : Type 0 → Type 0
Decoder A = A → Json → A × Bool

unfoldable pub decode_string : Decoder Str
decode_string old null = (old, true)
decode_string old (str s) = (s, true)
decode_string old _ = (old, false)

unfoldable pub decode_bool : Decoder Bool
decode_bool old null = (old, true)
decode_bool old (bool b) = (b, true)
decode_bool old _ = (old, false)

-- A number that `int` cannot hold is an error.
unfoldable pub decode_int : Decoder ℤ
decode_int old null = (old, true)
decode_int old (num n) = if in_int64 n then (n, true) else (old, false)
decode_int old _ = (old, false)

module _ {A : Type 0} where
  -- One field after the other, in the order of the text.
  pub decode_fields : (A → Str → Json → A × Bool) → A × Bool → Fields → A × Bool
  decode_fields set acc end = acc
  decode_fields set (a, fine) (field k v rest) =
      let (a', fine') = set a k v in decode_fields set (a', fine && fine') rest

  unfoldable pub decode_struct : (A → Str → Json → A × Bool) → Decoder A
  unfolding decode_fields
  decode_struct set old null = (old, true)
  decode_struct set old (obj fields) = decode_fields set (old, true) fields
  decode_struct set old _ = (old, false)

  pub decode_items : Decoder A → A → Items → List A × Bool
  decode_items decode zero_value nil = ([], true)
  decode_items decode zero_value (cons v rest) =
      let (a, fine) = decode zero_value v in
      let (l, fine') = decode_items decode zero_value rest in (a ∷ l, fine && fine')

  -- A slice; null is the nil slice.
  unfoldable pub decode_slice : Decoder A → A → Decoder (List A)
  unfolding decode_items
  decode_slice decode zero_value old null = ([], true)
  decode_slice decode zero_value old (arr items) = decode_items decode zero_value items
  decode_slice decode zero_value old _ = (old, false)

  unfoldable pub encode_items : (A → Json) → List A → Items
  encode_items encode [] = nil
  encode_items encode (a ∷ l) = cons (encode a) (encode_items encode l)

  -- A slice whose elements come back from the decoder comes back whole.
  pub decode_slice-encode_items :
      (decode : Decoder A) (zero_value : A) (encode : A → Json)
      → ((a : A) → decode zero_value (encode a) ≡ (a, true))
      → (old l : List A)
      → decode_slice decode zero_value old (arr (encode_items encode l)) ≡ (l, true)
  unfolding decode_slice encode_items
  decode_slice-encode_items decode zero_value encode h old [] = refl
  decode_slice-encode_items decode zero_value encode h old (a ∷ l) =
      rw (h a, decode_slice-encode_items decode zero_value encode h old l)
