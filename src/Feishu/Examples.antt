-- ===== src/Feishu/Examples.antt =====
-- internal/channel/feishu/feishu.go on a small message.
use cova.Base.{◌≡◌, refl, none, some, arith}
use cova.Feishu.{cut_mention, mention_loop, chars}
use cova.Feishu.Mentions.{clean_mention_ends}

clean_mention_ends_example :
    (cut_mention (mention_loop 30 "@_user_12 hi @_user_3") ≡ none)
    × (mention_loop 30 "@_user_12 hi @_user_3" ≡ mention_loop 21 "@_user_12 hi @_user_3")
unfolding chars
clean_mention_ends_example = clean_mention_ends 30 "@_user_12 hi @_user_3" (omega arith)

mention_cut : cut_mention "hi @_user_3." ≡ some "hi ."
unfolding cut_mention
mention_cut = refl
