-- ===== src/Tests/Escaping.antt =====
-- Escaped texts.
use gentest.Base.{◌≡◌, some, Bytes, codes, All}
use gentest.Escape.Github.{
  gha_escape_message, gha_escape_property, percent_decode, gha_escape-percent_decode,
}
use gentest.Escape.Xml.{escape_xml}
use gentest.Escape.Xml.Sanitize.{IsPlain, escape_xml-IsPlain}
use gentest.Escape.Json.Body.{Body}

gha_escape-percent_decode_example :
    (percent_decode (gha_escape_message (codes "a:50%")) ≡ codes "a:50%")
    × (percent_decode (gha_escape_property (codes "a:50%")) ≡ codes "a:50%")
gha_escape-percent_decode_example = gha_escape-percent_decode (codes "a:50%")

escape_xml-IsPlain_example :
    (out : Bytes) × (escape_xml (codes "<a b=\"c\">") ≡ some out) × All IsPlain out
escape_xml-IsPlain_example = escape_xml-IsPlain (codes "<a b=\"c\">")
