-- ===== src/Store/Threads.antt =====
-- MakeThreadID: the two ends of a conversation name the same thread.
use awiki_cli.Base.{◌≡◌, false, [], arith}
use awiki_cli.Text.{Text, trim_space, is_blank}
use awiki_cli.Text.Order.{lex-flip, eq_of_lex}
use awiki_cli.Store.{make_thread_id}

-- Two users with names make the same thread of their messages, whichever of them asks.
pub make_thread_id_comm :
    (a b : Text)
    → is_blank a ≡ false
    → is_blank b ≡ false
    → make_thread_id a b [] ≡ make_thread_id b a []
unfolding make_thread_id is_blank
make_thread_id_comm a b ha hb =
    ground (arith, lex-flip (trim_space a) (trim_space b), eq_of_lex (trim_space a) (trim_space b))
