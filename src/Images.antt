-- ===== src/Images.antt =====
-- src/images.c: the icon of the site.
use redstore.Base.{ℕ, false, Option, none, some, List, [], ◌∷◌, length, codes}
use redstore.Response.{Response, response_new_with_type, set_content, add_header}
use redstore.Platform.{Platform}
use redstore.Program.{Action, lift}
use redstore.Program.Monad.{◌>>=◌, pure}

abbrev const_data : List ℕ
const_data =
    0 ∷ 0 ∷ 1 ∷ 0 ∷ 1 ∷ 0 ∷ 16 ∷ 16 ∷ 16 ∷ 0 ∷ 1 ∷ 0 ∷ 4 ∷ 0 ∷ 40 ∷ 1 ∷ 0 ∷ 0 ∷ 22 ∷ 0 ∷ 0 ∷ 0 ∷ 40
    ∷ 0 ∷ 0 ∷ 0 ∷ 16 ∷ 0 ∷ 0 ∷ 0 ∷ 32 ∷ 0 ∷ 0 ∷ 0 ∷ 1 ∷ 0 ∷ 4 ∷ 0 ∷ 0 ∷ 0 ∷ 0 ∷ 0 ∷ 0 ∷ 0 ∷ 0 ∷ 0
    ∷ 0 ∷ 0 ∷ 0 ∷ 0 ∷ 0 ∷ 0 ∷ 0 ∷ 0 ∷ 0 ∷ 0 ∷ 0 ∷ 0 ∷ 0 ∷ 0 ∷ 0 ∷ 0 ∷ 221 ∷ 127 ∷ 17 ∷ 0 ∷ 18 ∷ 20
    ∷ 32 ∷ 0 ∷ 56 ∷ 42 ∷ 45 ∷ 0 ∷ 242 ∷ 189 ∷ 51 ∷ 0 ∷ 12 ∷ 21 ∷ 74 ∷ 0 ∷ 84 ∷ 73 ∷ 74 ∷ 0 ∷ 16 ∷ 24
    ∷ 111 ∷ 0 ∷ 136 ∷ 121 ∷ 112 ∷ 0 ∷ 36 ∷ 54 ∷ 151 ∷ 0 ∷ 196 ∷ 186 ∷ 164 ∷ 0 ∷ 22 ∷ 26 ∷ 170 ∷ 0
    ∷ 248 ∷ 240 ∷ 192 ∷ 0 ∷ 104 ∷ 121 ∷ 193 ∷ 0 ∷ 38 ∷ 54 ∷ 212 ∷ 0 ∷ 25 ∷ 30 ∷ 214 ∷ 0 ∷ 50 ∷ 79
    ∷ 219 ∷ 0 ∷ 0 ∷ 9 ∷ 117 ∷ 85 ∷ 85 ∷ 87 ∷ 144 ∷ 0 ∷ 7 ∷ 17 ∷ 68 ∷ 102 ∷ 106 ∷ 97 ∷ 17 ∷ 112 ∷ 26
    ∷ 238 ∷ 238 ∷ 238 ∷ 233 ∷ 254 ∷ 238 ∷ 161 ∷ 30 ∷ 170 ∷ 170 ∷ 110 ∷ 48 ∷ 61 ∷ 170 ∷ 226 ∷ 46
    ∷ 170 ∷ 221 ∷ 229 ∷ 57 ∷ 13 ∷ 170 ∷ 226 ∷ 46 ∷ 175 ∷ 0 ∷ 55 ∷ 227 ∷ 254 ∷ 170 ∷ 226 ∷ 46 ∷ 233
    ∷ 48 ∷ 126 ∷ 231 ∷ 170 ∷ 170 ∷ 226 ∷ 45 ∷ 170 ∷ 176 ∷ 7 ∷ 211 ∷ 218 ∷ 170 ∷ 210 ∷ 45 ∷ 138 ∷ 174
    ∷ 231 ∷ 5 ∷ 61 ∷ 170 ∷ 210 ∷ 45 ∷ 168 ∷ 170 ∷ 174 ∷ 176 ∷ 15 ∷ 170 ∷ 210 ∷ 47 ∷ 221 ∷ 255 ∷ 254
    ∷ 203 ∷ 254 ∷ 253 ∷ 242 ∷ 47 ∷ 134 ∷ 68 ∷ 68 ∷ 70 ∷ 68 ∷ 104 ∷ 242 ∷ 20 ∷ 68 ∷ 104 ∷ 136 ∷ 136
    ∷ 134 ∷ 68 ∷ 66 ∷ 29 ∷ 255 ∷ 255 ∷ 255 ∷ 255 ∷ 255 ∷ 255 ∷ 209 ∷ 7 ∷ 20 ∷ 70 ∷ 104 ∷ 134 ∷ 100
    ∷ 17 ∷ 112 ∷ 0 ∷ 9 ∷ 117 ∷ 85 ∷ 85 ∷ 87 ∷ 144 ∷ 0 ∷ 224 ∷ 7 ∷ 0 ∷ 0 ∷ 128 ∷ 1 ∷ 0 ∷ 0 ∷ 0 ∷ 0
    ∷ 0 ∷ 0 ∷ 0 ∷ 0 ∷ 0 ∷ 0 ∷ 0 ∷ 0 ∷ 0 ∷ 0 ∷ 0 ∷ 0 ∷ 0 ∷ 0 ∷ 0 ∷ 0 ∷ 0 ∷ 0 ∷ 0 ∷ 0 ∷ 0 ∷ 0 ∷ 0 ∷ 0
    ∷ 0 ∷ 0 ∷ 0 ∷ 0 ∷ 0 ∷ 0 ∷ 0 ∷ 0 ∷ 0 ∷ 0 ∷ 0 ∷ 0 ∷ 0 ∷ 0 ∷ 0 ∷ 0 ∷ 0 ∷ 0 ∷ 0 ∷ 0 ∷ 0 ∷ 0 ∷ 128
    ∷ 1 ∷ 0 ∷ 0 ∷ 224 ∷ 7 ∷ 0 ∷ 0 ∷ []

unfoldable pub handle_image_favicon : (S : Platform) → Action S.World (Option Response)
handle_image_favicon S = do
  response ← lift (response_new_with_type 200 none (some (codes "image/x-icon")))
  dated ← lift (add_header response (codes "Last-Modified") (some S.build_time))
  icon ← lift (set_content dated const_data (length const_data) false)
  pure (some icon)
