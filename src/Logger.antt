-- ===== src/Logger.antt =====
-- utils/logger.cpp: the lines that are written to the console.
use cpp_redis.Prelude.{
  ℕ, ◌&&◌, ◌||◌, not, List, [], ◌∷◌, ◌++◌, Bytes, codes, length, take, is_empty, ltb, if◌then◌else◌,
}
use cpp_redis.Prelude.Int.{ℤ, pos, lt_ℤ}
use cpp_redis.Number.{to_string}

-- A text in a colour: the escape sequence with its code, and the one that ends it.
abbrev pub coloured : Bytes → Bytes → Bytes
coloured colour s = (27 ∷ codes "[") ++ (colour ++ (codes "m" ++ (s ++ (27 ∷ codes "[0m"))))

abbrev pub green : Bytes
green = codes "1;32"

abbrev pub blue : Bytes
blue = codes "1;34"

-- `" (" << n << " bytes)" << std::endl`, with the number in yellow up to the end of the word.
abbrev pub byte_count : ℕ → Bytes
byte_count n =
    codes " (" ++ (coloured (codes "1;33") (to_string (pos n) ++ codes " bytes") ++ codes ")\n")

-- The arguments behind the command.
unfoldable pub blue_words : List Bytes → Bytes
blue_words [] = []
blue_words (x ∷ xs) = codes " " ++ (coloured blue x ++ blue_words xs)

unfoldable pub log_words : List Bytes → Bytes
log_words [] = []
log_words (x ∷ xs) = coloured green x ++ blue_words xs

-- The four signs in front are the bytes of UTF-8.
unfoldable pub log_command : List Bytes → ℕ → Bytes
log_command args bytes_consumed =
    (240 ∷ 159 ∷ 144 ∷ 155 ∷ codes " [CMD] ") ++ (log_words args ++ byte_count bytes_consumed)

unfoldable pub log_response : Bytes → Bytes
log_response response =
    (240 ∷ 159 ∷ 147 ∷ 164 ∷ codes " [RESP] ")
    ++ (coloured (codes "0;35") (take 50 response)
        ++ ((if ltb 50 (length response) then codes "..." else []) ++ byte_count (length response)))

unfoldable pub log_connection : Bytes → Bytes → ℤ → Bytes
log_connection action client_ip client_port =
    (240 ∷ 159 ∷ 148 ∷ 140 ∷ codes " [")
    ++ (action
        ++ (if not (is_empty client_ip) && (lt_ℤ client_port (pos 0) || lt_ℤ (pos 0) client_port)
            then codes "] " ++ (client_ip ++ (codes ":" ++ (to_string client_port ++ codes "\n")))
            else codes "]\n"))

unfoldable pub log_error : Bytes → Bytes
log_error error_message =
    (226 ∷ 157 ∷ 140 ∷ codes " [ERROR] ") ++ (coloured (codes "1;31") error_message ++ codes "\n")
