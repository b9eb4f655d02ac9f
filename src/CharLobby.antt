-- ===== src/CharLobby.antt =====
-- servers/agentserver/char_lobby.h: the structs of the character screen and their `Pack` methods.
-- A method returns the bytes that it appends to the packer; a string is its list of bytes.
pub mod Shape
use ran_online.Base.{ℕ, suc, List, [], ◌∷◌, ◌++◌, Bool, false, length, replicate}
use ran_online.Base.Int.{ℤ, pos}
use ran_online.MsgPack.{array, uint, int, str, bool}

pub record GlPaData : Type 0 where
  pub dw_data : ℕ

unfoldable pub pack_gl_pa_data : GlPaData → List ℕ
pack_gl_pa_data p = array 1 ++ uint p.dw_data

pub record GlLlData : Type 0 where
  pub ln_data1 : ℤ
  pub ln_data2 : ℤ

unfoldable pub pack_gl_ll_data : GlLlData → List ℕ
pack_gl_ll_data p = array 2 ++ (int p.ln_data1 ++ int p.ln_data2)

pub record CharStats : Type 0 where
  pub w_pow : ℕ
  pub w_str : ℕ
  pub w_spi : ℕ
  pub w_dex : ℕ
  pub w_int : ℕ
  pub w_sta : ℕ

unfoldable pub pack_char_stats : CharStats → List ℕ
pack_char_stats p =
    array 6
    ++ (uint p.w_pow
        ++ (uint p.w_str ++ (uint p.w_spi ++ (uint p.w_dex ++ (uint p.w_int ++ uint p.w_sta)))))

pub record NativeId : Type 0 where
  pub dw_id : ℕ

unfoldable pub pack_native_id : NativeId → List ℕ
pack_native_id p = array 1 ++ uint p.dw_id

pub record ItemLoby : Type 0 where
  pub s_native_id : NativeId
  pub nid_disguise : NativeId
  pub dw_main_color : ℕ
  pub dw_sub_color : ℕ
  pub c_damage : ℕ
  pub c_defense : ℕ

unfoldable pub pack_item_loby : ItemLoby → List ℕ
pack_item_loby p =
    array 6
    ++ (pack_native_id p.s_native_id
        ++ (pack_native_id p.nid_disguise
            ++ (uint p.dw_main_color
                ++ (uint p.dw_sub_color ++ (uint p.c_damage ++ uint p.c_defense)))))

abbrev pub slot_tsize : ℕ
slot_tsize = 20

pub record CharInfoLobby : Type 0 where
  pub dw_char_id : ℕ
  pub club_db_num : ℕ
  pub em_class : ℕ
  pub w_school : ℕ
  pub w_hair : ℕ
  pub w_face : ℕ
  pub w_sex : ℕ
  pub w_hair_color : ℕ
  pub s_hp : GlPaData
  pub s_experience : GlLlData
  pub n_bright : ℤ
  pub w_level : ℕ
  pub s_stats : CharStats
  pub put_on_items : List ItemLoby
  pub s_save_map_id : NativeId
  pub club_rank : ℕ
  pub cha_name : List ℕ
  pub club_name : List ℕ
  pub lock : Bool
  pub b_ran_mobile : Bool

unfoldable pub empty_item : ItemLoby
empty_item = record {
  s_native_id = record { dw_id = 0 };
  nid_disguise = record { dw_id = 0 };
  dw_main_color = 0;
  dw_sub_color = 0;
  c_damage = 0;
  c_defense = 0;
}

-- The default constructor.
unfoldable pub new_char_info_lobby : CharInfoLobby
new_char_info_lobby = record {
  dw_char_id = 0;
  club_db_num = 0;
  em_class = 0;
  w_school = 0;
  w_hair = 0;
  w_face = 0;
  w_sex = 0;
  w_hair_color = 0;
  s_hp = record { dw_data = 0 };
  s_experience = record { ln_data1 = pos 0; ln_data2 = pos 0 };
  n_bright = pos 0;
  w_level = 1;
  s_stats = record { w_pow = 0; w_str = 0; w_spi = 0; w_dex = 0; w_int = 0; w_sta = 0 };
  put_on_items = replicate slot_tsize empty_item;
  s_save_map_id = record { dw_id = 0 };
  club_rank = 0;
  cha_name = [];
  club_name = [];
  lock = false;
  b_ran_mobile = false;
}

-- The loop over the equipment.
unfoldable pub pack_put_on_items : List ItemLoby → List ℕ
pack_put_on_items [] = []
pack_put_on_items (it ∷ items) = pack_item_loby it ++ pack_put_on_items items

unfoldable pub pack_char_info_lobby : CharInfoLobby → List ℕ
pack_char_info_lobby p =
    array 20
    ++ uint p.dw_char_id
    ++ uint p.club_db_num
    ++ uint p.em_class
    ++ uint p.w_school
    ++ uint p.w_hair
    ++ uint p.w_face
    ++ uint p.w_sex
    ++ uint p.w_hair_color
    ++ pack_gl_pa_data p.s_hp
    ++ pack_gl_ll_data p.s_experience
    ++ int p.n_bright
    ++ uint p.w_level
    ++ pack_char_stats p.s_stats
    ++ array (length p.put_on_items)
    ++ pack_put_on_items p.put_on_items
    ++ pack_native_id p.s_save_map_id
    ++ uint p.club_rank
    ++ str p.cha_name
    ++ str p.club_name
    ++ bool p.lock
    ++ bool p.b_ran_mobile

unfoldable pub pack_lobby_char_info_ac : CharInfoLobby → List ℕ
pack_lobby_char_info_ac info = array 1 ++ pack_char_info_lobby info
