-- ===== src/Tests/Statements.antt =====
-- The statements of server/main.c at hostile values.
use pal_ft.Base.{◌≤◌, ◌≡◌, arith, length, replicate}
use pal_ft.Libc.{Bytes, codes}
use pal_ft.Main.Cuts.{IsCut, formatted-IsCut}
use pal_ft.Main.Quotes.{split_quotes}
use pal_ft.Main.Statements.{Statement, insert_into_usuarios, formatted, pieces, formatted-pieces}

-- A value that tries to leave its literal.
abbrev hostile : Bytes
hostile = codes "' OR '1'='1"

hostile_short : length hostile ≤ 1023
hostile_short = omega arith

abbrev registration : Statement
registration = insert_into_usuarios hostile hostile hostile

formatted-pieces_example : split_quotes (formatted registration) ≡ pieces registration
formatted-pieces_example =
    formatted-pieces registration (hostile_short, hostile_short, hostile_short)

-- A name of quotes alone, which fills the buffer.
abbrev overlong : Statement
overlong = insert_into_usuarios (replicate 4100 b'\'') hostile hostile

formatted-IsCut_example : IsCut (split_quotes (formatted overlong)) (pieces overlong)
formatted-IsCut_example = formatted-IsCut overlong tt
