-- ===== src/Examples/Identifiers.antt =====
-- Signed identifiers.
use info_room_reservation_si.Prelude.{◌≡◌, refl, ◌↔◌, some, Text, codes, text_eq, arith}
use info_room_reservation_si.CustomIds.{
  roster_first, build_discord_operations_board_custom_id, parse_discord_operations_board_custom_id,
  build_discord_admin_reason_custom_id, parse_discord_admin_reason_custom_id, board_action_code,
  text36, split, mac, is_snowflake,
}
use info_room_reservation_si.CustomIds.RoundTrip.{parse-build_discord_operations_board_custom_id}
use info_room_reservation_si.CustomIds.Signed.{parse_discord_admin_reason_custom_id_iff}

-- A digest that forgets what it signs.
abbrev weak : Text → Text → Text
weak secret message = codes "abcdefghijklmnopqrstuvwxyz"

build_test :
    build_discord_operations_board_custom_id weak roster_first 46655 (codes "s")
    ≡ some (codes "db1.1.zzz.abcdefghijklmnopqrstuv")
unfolding build_discord_operations_board_custom_id board_action_code text36 mac
build_test = refl

parse-build_discord_operations_board_custom_id_example :
    (custom_id : Text) × (build_discord_operations_board_custom_id weak roster_first 46655
        (codes "s")
      ≡ some custom_id)
    × (parse_discord_operations_board_custom_id weak custom_id (codes "s")
        ≡ some (roster_first, 46655))
parse-build_discord_operations_board_custom_id_example =
    parse-build_discord_operations_board_custom_id weak (λ secret message. refl) roster_first 46655
      (codes "s") (omega arith) refl

abbrev snowflake : Text
snowflake = codes "123456789012345678"

parse_discord_admin_reason_custom_id_iff_example :
    (parse_discord_admin_reason_custom_id weak
        (codes "da1.123456789012345678.abcdefghijklmnopqrstuv")
        (codes "s")
      ≡ some snowflake)
    ↔ (build_discord_admin_reason_custom_id weak (codes "s") snowflake
        ≡ some (codes "da1.123456789012345678.abcdefghijklmnopqrstuv"))
parse_discord_admin_reason_custom_id_iff_example =
    parse_discord_admin_reason_custom_id_iff weak (λ secret message. refl)
      (codes "da1.123456789012345678.abcdefghijklmnopqrstuv") snowflake (codes "s") refl

parse_test :
    parse_discord_admin_reason_custom_id weak
      (codes "da1.123456789012345678.abcdefghijklmnopqrstuv")
      (codes "s")
    ≡ some snowflake
unfolding parse_discord_admin_reason_custom_id split mac is_snowflake text_eq
parse_test = refl
