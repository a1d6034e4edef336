-- ===== src/Owp/ConvertTests.antt =====
-- The conversion of an envelope on a small input.
use oa_gateway.Prelude.{[], ◌∷◌}
use oa_gateway.Prelude.Attempt.{IfDone}
use oa_gateway.Text.{codes}
use oa_gateway.Engine.Types.{Envelope, topic_route, json}
use oa_gateway.Owp.Convert.{Xml, toward_xml, IsConverted, toward_xml-IsConverted}
use oa_gateway.Uci.Errors
use oa_gateway.Uci.Schema.{Schema, element, complex, el, new_schema}
use oa_gateway.Uci.Plain.{plain, plain_json}
use oa_gateway.Uci.Json.{Value, object, member, no_members, text}

abbrev schema : Schema plain
unfolding element complex
schema =
    element (codes "Ping") (codes "PingType")
      (complex (codes "PingType") (el (codes "Id") (codes "xs:string") ∷ []) new_schema)

abbrev document : Value plain
document =
    object (
      member (codes "Ping") (object (member (codes "Id") (text (codes "7")) no_members)) no_members)

abbrev tags : Xml plain
tags = record {
  from_xml = λ t s. Errors.err Errors.not_utf8;
  to_xml = λ m s. Errors.ok (codes "<Ping/>");
  utf8_error = λ b. codes "invalid utf-8";
  show_char = λ b. b ∷ [];
}

abbrev ping : Envelope
ping = record {
  id = 3;
  route = topic_route (codes "demo");
  headers = [];
  content_type = json;
  payload = codes "{ping}";
}

toward_xml-IsConverted_example :
    IfDone
      (IsConverted (plain_json document) tags ping)
      (toward_xml (plain_json document) tags ping schema)
toward_xml-IsConverted_example = toward_xml-IsConverted (plain_json document) tags ping schema
