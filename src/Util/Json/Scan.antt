-- ===== src/Util/Json/Scan.antt =====
-- util/json_scan.c: arrays, their objects, and objects by id.
use acer_nitro_sense_linux.Prelude.{
  Bytes, Option, [], codes, eqb_ℤ, if◌then◌else◌, is_some, leb, length, none, pos, reverse, some,
  suc, take, zero, ℕ, ℤ, ◌&&◌, ◌++◌, ◌+ℤ◌, ◌-ℤ◌, ◌-◌, ◌==◌, ◌>>=◌, ◌∷◌,
}
use acer_nitro_sense_linux.Util.Json.{json_after_colon, json_find_key, strstr}

-- The bytes up to the bracket that closes `depth` open ones, if it comes.
unfoldable pub close_array : ℕ → Bytes → Option Bytes
close_array depth [] = none
close_array zero (c ∷ s) = none
close_array (suc depth) (c ∷ s) =
    let next =
      close_array (if c == b'[' then suc (suc depth) else if c == b']' then depth else suc depth)
        s in
    if c == b']' && depth == 0
    then some []
    else elim next [ none ↦ none | some inner ↦ some (c ∷ inner) ]

abbrev after_bracket : Bytes → Option Bytes
after_bracket [] = none
after_bracket (c ∷ s) = if c == b'[' then some s else none

-- The bytes between the brackets of the array: what lies between the two pointers of the source.
unfoldable pub json_find_array : Bytes → Bytes → Option Bytes
unfolding close_array
json_find_array json key = do
  at_key ← json_find_key json key
  p ← json_after_colon at_key
  body ← after_bracket p
  close_array 1 body

abbrev extend : ℕ → Option Bytes → Option Bytes
extend c none = none
extend c (some seen) = some (c ∷ seen)

abbrev finish : Option Bytes → Bytes
finish none = []
finish (some seen) = reverse seen

-- The loop of `json_next_object`: `depth`, and the object so far in reverse once it has started.
unfoldable pub scan_object : ℤ → Option Bytes → Bytes → Option (Bytes × Bytes)
unfolding ◌+ℤ◌ ◌-ℤ◌
scan_object depth start [] = none
scan_object depth start (c ∷ s) =
    let start' = if c == b'{' && eqb_ℤ depth (pos 0) then some [] else start in
    let depth' =
      if c == b'{' then depth +ℤ pos 1 else if c == b'}' then depth -ℤ pos 1 else depth in
    let next = scan_object depth' (extend c start') s in
    if c == b'}' && eqb_ℤ depth' (pos 0) && is_some start'
    then some (finish (extend c start'), s)
    else next

-- The next object, and what is left of the array behind it.
unfoldable pub json_next_object : Bytes → Option (Bytes × Bytes)
unfolding scan_object
json_next_object p = scan_object (pos 0) none p

unfoldable pub json_copy_slice : Bytes → ℕ → Bytes
json_copy_slice slice out_len =
    if leb out_len (length slice) then take (out_len - 1) slice else slice

-- The needle is cut to its buffer of 64 bytes.
unfoldable pub json_object_with_id : Bytes → Bytes → Option Bytes
unfolding strstr
json_object_with_id json id = strstr json (take 63 (codes "\"id\": \"" ++ (id ++ b'"' ∷ [])))
