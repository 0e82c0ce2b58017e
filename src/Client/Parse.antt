-- ===== src/Client/Parse.antt =====
-- client/parse.c: the numbers on the command line.
use acer_nitro_sense_linux.Prelude.{Bytes, Option, pos, ℤ}
use acer_nitro_sense_linux.Util.Strtol.{parse_int_range}

unfoldable pub client_parse_percent : Bytes → Option ℤ
client_parse_percent text = parse_int_range text (pos 1) (pos 100) 10

unfoldable pub client_parse_byte_value : Bytes → Option ℤ
client_parse_byte_value text = parse_int_range text (pos 0) (pos 255) 0
