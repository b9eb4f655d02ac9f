-- ===== src/CharLobby/Shape.antt =====
-- The answer of the character screen is one MessagePack object with the fields in the order that
-- servers/agentserver/char_lobby.h documents.
use ran_online.Base.{
  ℕ, zero, suc, ◌^◌, ◌<◌, ◌≡◌, ◌∙◌, sym, refl, ap₂, List, [], ◌∷◌, ◌++◌, Option, some, none, length,
  All, append_assoc, append-nil,
}
use ran_online.Base.Int.{pos, IsInt}
use ran_online.MsgPack.{array, uint, int, str, bool}
use ran_online.MsgPack.Format.{Item, num, text, truth, head, decode}
use ran_online.MsgPack.RoundTrip.{decode-int, decode-str, decode-array, decode-bool}
use ran_online.CharLobby.{
  NativeId, ItemLoby, CharInfoLobby, pack_gl_pa_data, pack_gl_ll_data, pack_char_stats,
  pack_native_id, pack_item_loby, pack_put_on_items, pack_char_info_lobby, pack_lobby_char_info_ac,
}

abbrev prepend : Item → Option (List Item × List ℕ) → Option (List Item × List ℕ)
prepend item none = none
prepend item (some (items, left)) = some (item ∷ items, left)

abbrev read_next :
    (List ℕ → Option (List Item × List ℕ)) → Option (Item × List ℕ) → Option (List Item × List ℕ)
read_next later none = none
read_next later (some (item, rest)) = prepend item (later rest)

-- The next `n` items.
unfoldable pub read_items : ℕ → List ℕ → Option (List Item × List ℕ)
read_items zero xs = some ([], xs)
read_items (suc n) xs = read_next (read_items n) (decode xs)

-- `n` and `k` elements more.
abbrev raise : ℕ → ℕ → ℕ
raise zero n = n
raise (suc k) n = suc (raise k n)

-- What is still open behind the items, where `n` values were expected before them: an array
-- expects its elements. `none`: an item stood where nothing was expected.
unfoldable pub expected : ℕ → List Item → Option ℕ
expected n [] = some n
expected zero (item ∷ items) = none
expected (suc n) (head k ∷ items) = expected (raise k n) items
expected (suc n) (num i ∷ items) = expected n items
expected (suc n) (text s ∷ items) = expected n items
expected (suc n) (truth b ∷ items) = expected n items

abbrev nat_item : ℕ → Item
nat_item v = num (pos v)

-- The fields in their order, by the documented structs.
abbrev native_id_items : NativeId → List Item
native_id_items p = head 1 ∷ nat_item p.dw_id ∷ []

abbrev item_loby_items : ItemLoby → List Item
item_loby_items p =
    head 6
    ∷ head 1
    ∷ nat_item p.s_native_id.dw_id
    ∷ head 1
    ∷ nat_item p.nid_disguise.dw_id
    ∷ nat_item p.dw_main_color
    ∷ nat_item p.dw_sub_color
    ∷ nat_item p.c_damage
    ∷ nat_item p.c_defense
    ∷ []

abbrev put_on_items_items : List ItemLoby → List Item
put_on_items_items [] = []
put_on_items_items (it ∷ items) = item_loby_items it ++ put_on_items_items items

abbrev before_items : CharInfoLobby → List Item
before_items p =
    head 1
    ∷ head 20
    ∷ nat_item p.dw_char_id
    ∷ nat_item p.club_db_num
    ∷ nat_item p.em_class
    ∷ nat_item p.w_school
    ∷ nat_item p.w_hair
    ∷ nat_item p.w_face
    ∷ nat_item p.w_sex
    ∷ nat_item p.w_hair_color
    ∷ head 1
    ∷ nat_item p.s_hp.dw_data
    ∷ head 2
    ∷ num p.s_experience.ln_data1
    ∷ num p.s_experience.ln_data2
    ∷ num p.n_bright
    ∷ nat_item p.w_level
    ∷ head 6
    ∷ nat_item p.s_stats.w_pow
    ∷ nat_item p.s_stats.w_str
    ∷ nat_item p.s_stats.w_spi
    ∷ nat_item p.s_stats.w_dex
    ∷ nat_item p.s_stats.w_int
    ∷ nat_item p.s_stats.w_sta
    ∷ head (length p.put_on_items)
    ∷ []

abbrev after_items : CharInfoLobby → List Item
after_items p =
    head 1
    ∷ nat_item p.s_save_map_id.dw_id
    ∷ nat_item p.club_rank
    ∷ text p.cha_name
    ∷ text p.club_name
    ∷ truth p.lock
    ∷ truth p.b_ran_mobile
    ∷ []

unfoldable pub lobby_items : CharInfoLobby → List Item
lobby_items p = before_items p ++ (put_on_items_items p.put_on_items ++ after_items p)

-- What the encoder writes for an item.
abbrev pack_item : Item → List ℕ
pack_item (num i) = int i
pack_item (text s) = str s
pack_item (truth b) = bool b
pack_item (head n) = array n

abbrev pack_items : List Item → List ℕ
pack_items [] = []
pack_items (item ∷ items) = pack_item item ++ pack_items items

-- The values that the C++ types of the fields can have.
abbrev IsItem : Item → Type 0
IsItem (num i) = IsInt 63 i
IsItem (text s) = length s < 2 ^ 32
IsItem (truth b) = Unit
IsItem (head n) = n < 2 ^ 32

abbrev pub IsCharInfo : CharInfoLobby → Type 0
IsCharInfo p = All IsItem (lobby_items p)

decode-pack_item :
    (item : Item) (rest : List ℕ)
    → IsItem item
    → decode (pack_item item ++ rest) ≡ some (item, rest)
decode-pack_item (num i) rest h = decode-int i rest h
decode-pack_item (text s) rest h = decode-str s rest h
decode-pack_item (truth b) rest h = decode-bool b rest
decode-pack_item (head n) rest h = decode-array n rest h

read_step :
    (n : ℕ) (xs rest left : List ℕ) (item : Item) (items : List Item)
    → decode xs ≡ some (item, rest)
    → read_items n rest ≡ some (items, left)
    → read_items (suc n) xs ≡ some (item ∷ items, left)
unfolding read_items
read_step n xs rest left item items e f = rw (e, f) refl

read_items-pack_items :
    (items : List Item) (rest : List ℕ)
    → All IsItem items
    → read_items (length items) (pack_items items ++ rest) ≡ some (items, rest)
unfolding read_items
read_items-pack_items [] rest h = refl
read_items-pack_items (item ∷ items) rest (h, hs) =
    rw (append_assoc (pack_item item) (pack_items items) rest) (
      read_step (length items) _ (pack_items items ++ rest) rest item items
        (decode-pack_item item (pack_items items ++ rest) h) (read_items-pack_items items rest hs))

pack_items-append : (xs ys : List Item) → pack_items (xs ++ ys) ≡ pack_items xs ++ pack_items ys
pack_items-append [] ys = refl
pack_items-append (x ∷ xs) ys =
    rw (pack_items-append xs ys, append_assoc (pack_item x) (pack_items xs) (pack_items ys)) refl

pack_put_on_items-items :
    (items : List ItemLoby) → pack_put_on_items items ≡ pack_items (put_on_items_items items)
unfolding pack_put_on_items pack_item_loby pack_native_id int uint
pack_put_on_items-items [] = refl
pack_put_on_items-items (it ∷ items) =
    ap₂ ◌++◌ (simp (append_assoc, append-nil) refl) (pack_put_on_items-items items)
    ∙ sym (pack_items-append (item_loby_items it) (put_on_items_items items))

pack_lobby-items : (p : CharInfoLobby) → pack_lobby_char_info_ac p ≡ pack_items (lobby_items p)
unfolding pack_lobby_char_info_ac pack_char_info_lobby pack_gl_pa_data pack_gl_ll_data
    pack_char_stats pack_native_id lobby_items int uint
pack_lobby-items p =
    simp (append_assoc, append-nil, pack_put_on_items-items, pack_items-append) refl

-- The items of the equipment are one value each.
expected-put_on_items :
    (items : List ItemLoby) (n : ℕ) (more : List Item)
    → expected (raise (length items) n) (put_on_items_items items ++ more) ≡ expected n more
unfolding expected
expected-put_on_items [] n more = refl
expected-put_on_items (it ∷ items) n more = expected-put_on_items items n more

expected-lobby_items : (p : CharInfoLobby) → expected 1 (lobby_items p) ≡ some 0
unfolding expected lobby_items
expected-lobby_items p = expected-put_on_items p.put_on_items 6 (after_items p)

-- What PackLobbyCharInfoAc writes for fields in the ranges of their types reads as the documented
-- items in the documented order, up to its last byte, and these items are exactly one MessagePack
-- value: each array has as many elements as its head says.
pub read_items-pack_lobby :
    (p : CharInfoLobby) (rest : List ℕ)
    → IsCharInfo p
    → (read_items (length (lobby_items p)) (pack_lobby_char_info_ac p ++ rest)
        ≡ some (lobby_items p, rest))
      × (expected 1 (lobby_items p) ≡ some 0)
read_items-pack_lobby p rest h =
    (rw (pack_lobby-items p) (read_items-pack_items (lobby_items p) rest h), expected-lobby_items p)
