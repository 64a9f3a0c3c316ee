-- ===== src/Tests/Texts.antt =====
-- Texts to split and to join.
use spartan_launcher.Prelude.{◌≡◌, [], arith, Bytes, codes}
use spartan_launcher.Text.Fields.{fields, tokens, tokens-fields}

abbrev listing : Bytes
listing = codes ",start,,stop,"

tokens-fields_example : tokens 20 b',' listing ≡ fields b',' [] listing
tokens-fields_example = tokens-fields 20 b',' listing (omega arith)
