-- ===== src/Server/Logger.antt =====
-- Server/include/Logger.h: the log. The mutex is left out: a call of `operator()` is one step.
use p2p_watcher.Base.{[], ◌∷◌, ◌++◌}
use p2p_watcher.Console.{Text, Console}

pub data LoggerMode : Type 0 where
  info error file : LoggerMode

-- `Log::operator()`; the mode `file` is a todo of the source.
unfoldable pub log : Text → LoggerMode → Console → Console
log text info c = record c { out = c.out ++ text ∷ [] }
log text error c = record c { err = c.err ++ text ∷ [] }
log text file c = c
