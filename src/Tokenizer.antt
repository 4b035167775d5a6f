-- ===== src/Tokenizer.antt =====
-- internal/tokenizer: the pieces of a text (pretoken.go), the merging of pairs (bpe.go), and the
-- vocabulary they are looked up in, which is a file that the program embeds and a parameter here.
pub mod Pretokens
pub mod Bpe
