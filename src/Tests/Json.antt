-- ===== src/Tests/Json.antt =====
-- An object that is built with server/libs/pjsonb.c; its floats are their text.
use pal_ft.Base.{◌+◌, ◌^◌, ◌<◌, ◌≡◌, refl, arith, true, ◌++◌, length, ok}
use pal_ft.Libc.{Bytes, codes, negsuc}
use pal_ft.Pjsonb.{Builder}
use pal_ft.Pjsonb.Render.{
  Fields, done, field, nested, text, int, size_t, bool, float, rendered, document,
}
use pal_ft.Pjsonb.Render.Whole.{document-rendered}
use pal_ft.Tests.World.{program}

abbrev same : Bytes → Bytes
same f = f

abbrev product : Fields Bytes
product = field (codes "nome") (text (codes "Bulba")) (
    nested (codes "stats")
      (field (codes "preco") (int (negsuc 4)) (field (codes "id") (size_t 12) done))
      (nested (codes "none") done
        (field (codes "new") (bool true) (field (codes "rate") (float (codes "0.500000")) done))))

product_text :
    codes "{" ++ (rendered same product ++ codes "}")
    ≡ codes
        "{\"nome\":\"Bulba\",\"stats\":{\"preco\":-5,\"id\":12},\"none\":{},\"new\":true,\"rate\":0.500000}"
unfolding program
product_text = refl

short : length (rendered same product) + 2 < 2 ^ 31
unfolding program
short = omega arith

document-rendered_example :
    (b : Builder) × (document same product ≡ ok b)
    × (b.string ≡ codes "{" ++ (rendered same product ++ codes "}"))
    × (b.position ≡ length (rendered same product) + 2)
document-rendered_example = document-rendered same product short
