-- ===== src/EventStream/Slices.antt =====
-- Numbers and slices of bytes in crates/router-core/src/eventstream.rs, and one header read back.
use rapidrouter.Prelude.{
  ℕ, zero, suc, ◌+◌, ◌%◌, ◌<◌, ◌≡◌, refl, sym, ap, ◌∙◌, true, some, List, [], ◌∷◌, ◌++◌,
  append_assoc, length, drop, get_elem?, length-append, take-append, drop-append, arith, is_utf8,
}
use rapidrouter.EventStream.{
  be_bytes, slice, get_slice, put_u32, put_u16, put_header, Headers, read_header, read_value,
  as_text, note,
}

pub be_bytes-put_u32 : (n : ℕ) → n < 4294967296 → be_bytes 0 (put_u32 n) ≡ n
unfolding be_bytes put_u32
be_bytes-put_u32 n h = omega arith

pub be_bytes-put_u16 : (n : ℕ) → n < 65536 → be_bytes 0 (put_u16 n) ≡ n
unfolding be_bytes put_u16
be_bytes-put_u16 n h = omega arith

-- A part of bytes that are given by their parts.
pub slice-append :
    (bytes a b c : List ℕ) (start count : ℕ)
    → bytes ≡ a ++ (b ++ c)
    → start ≡ length a
    → count ≡ length b
    → slice start count bytes ≡ b
unfolding slice
slice-append bytes a b c start count parts at_a of_b =
    rw (parts, at_a, of_b, drop-append a (b ++ c)) (take-append b c)

pub get_slice-append :
    (bytes a b c : List ℕ) (start count : ℕ)
    → bytes ≡ a ++ (b ++ c)
    → start ≡ length a
    → count ≡ length b
    → get_slice start count bytes ≡ some b
unfolding get_slice
get_slice-append bytes a b c start count parts at_a of_b =
    let whole = ap (λ (l : List ℕ). length l) parts in
    let front = length-append a (b ++ c) in
    let back = length-append b c in
    let part = slice-append bytes a b c start count parts at_a of_b in
    ground (arith, whole, front, back, part, at_a, of_b)

pub get_elem?-append :
    (a : List ℕ) (x : ℕ) (c : List ℕ) (i : ℕ) → i ≡ length a → get_elem? (a ++ (x ∷ c)) i ≡ some x
get_elem?-append [] x c zero h = refl
get_elem?-append [] x c (suc i) h = absurd (omega arith)
get_elem?-append (b ∷ a) x c zero h = absurd (omega arith)
get_elem?-append (b ∷ a) x c (suc i) h = get_elem?-append a x c i (omega arith)

pub drop-append_at : (bytes a c : List ℕ) (n : ℕ) → bytes ≡ a ++ c → n ≡ length a → drop n bytes ≡ c
drop-append_at bytes a c n parts at_a = rw (parts, at_a) (drop-append a c)

read_header-parts :
    (h : Headers) (bytes name size value tail : List ℕ) (name_len len : ℕ)
    → get_slice 1 name_len bytes ≡ some name
    → is_utf8 name ≡ true
    → get_elem? bytes (1 + name_len) ≡ some 7
    → get_slice (2 + name_len) 2 bytes ≡ some size
    → be_bytes 0 size ≡ len
    → get_slice (4 + name_len) len bytes ≡ some value
    → is_utf8 value ≡ true
    → drop (4 + name_len + len) bytes ≡ tail
    → read_header h name_len bytes ≡ some (note h name value, tail)
unfolding read_header read_value as_text
read_header-parts h bytes name size value tail name_len len named utf8 kind sized is_len valued
      utf8' rest =
    rw (named, read_header)
      (rw (utf8, kind, read_value)
        (rw (sized, read_value)
          (rw (is_len, valued, as_text)
            (rw (utf8', read_value)
              (ap (λ t. some (note h name value, t))
                (ap (λ n. drop (4 + name_len + n) bytes) is_len ∙ rest))))))

-- A header that was written is read back, with what follows it left.
pub read_header-put_header :
    (h : Headers) (name value tail : List ℕ)
    → length name < 256
    → length value < 65536
    → is_utf8 name ≡ true
    → is_utf8 value ≡ true
    → read_header h (length name) (put_header name value ++ tail) ≡ some (note h name value, tail)
unfolding read_header put_header
read_header-put_header h name value tail short small utf8 utf8' =
    let bytes = put_header name value ++ tail in
    let first = length name % 256 in
    let size = put_u16 (length value % 65536) in
    let len : be_bytes 0 size ≡ length value =
      be_bytes-put_u16 (length value % 65536) (omega arith) ∙ omega arith in
    let two : length size ≡ 2 = refl in
    let parts : bytes ≡ (first ∷ name) ++ (7 ∷ (size ++ (value ++ tail))) =
      ap (λ t. first ∷ t)
        (append_assoc name (7 ∷ (size ++ value)) tail
          ∙ ap (λ t. name ++ (7 ∷ t)) (append_assoc size value tail)) in
    let named =
      get_slice-append bytes (first ∷ []) name (7 ∷ (size ++ (value ++ tail))) 1 (length name) parts
        (omega arith) refl in
    let kind =
      ap (λ (l : List ℕ). get_elem? l (1 + length name)) parts
      ∙ get_elem?-append (first ∷ name) 7 (size ++ (value ++ tail)) (1 + length name)
          (omega arith) in
    let sized =
      get_slice-append bytes ((first ∷ name) ++ (7 ∷ [])) size (value ++ tail) (2 + length name) 2
        (parts ∙ sym (append_assoc (first ∷ name) (7 ∷ []) (size ++ (value ++ tail))))
        (omega (arith, length-append (first ∷ name) (7 ∷ []))) refl in
    let before = (first ∷ name) ++ (7 ∷ size) in
    let past = length-append (first ∷ name) (7 ∷ size) in
    let split : bytes ≡ before ++ (value ++ tail) =
      parts ∙ sym (append_assoc (first ∷ name) (7 ∷ size) (value ++ tail)) in
    let valued =
      get_slice-append bytes before value tail (4 + length name) (length value) split (omega arith)
        refl in
    let rest =
      drop-append_at bytes (before ++ value) tail (4 + length name + length value)
        (split ∙ sym (append_assoc before value tail))
        (omega (arith, length-append before value)) in
    read_header-parts h bytes name size value tail (length name) (length value) named utf8 kind
      sized len valued utf8' rest
