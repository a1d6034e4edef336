-- ===== src/Uci/Sniff.antt =====
-- `looks_like_xml` and `looks_like_json` in crates/oa-gateway-uci/src/lib.rs.
use oa_gateway.Prelude.{Bool, ◌&&◌}
use oa_gateway.Text.{Bytes}
use oa_gateway.Text.Utf8.{is_utf8}
use oa_gateway.Text.Space.{trim_start, begins_with}

unfoldable pub looks_like_xml : Bytes → Bool
unfolding is_utf8 trim_start
looks_like_xml bytes = is_utf8 bytes && begins_with b'<' (trim_start bytes)

unfoldable pub looks_like_json : Bytes → Bool
unfolding is_utf8 trim_start
looks_like_json bytes = is_utf8 bytes && begins_with b'{' (trim_start bytes)
