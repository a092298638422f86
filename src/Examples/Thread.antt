-- ===== src/Examples/Thread.antt =====
-- A thread of pcie_native_thread on the board of Examples/Board, after its enumeration.
use warp_pipe.Base.{update, []}
use warp_pipe.ConfigSpace.{store_word}
use warp_pipe.MemoryMock.Setup.{mock_bars, mock_space}
use warp_pipe.Client.State.{Client}
use warp_pipe.Examples.Pipe.{zeroed}
use warp_pipe.Examples.Board.{Board}

abbrev with_bars : Client
with_bars = record zeroed {
  bar = update (update (λ _. 0) 0 0x10_0000) 1 0x14_0000;
  bar_size = update (update (λ _. 0) 0 128) 1 2048;
}

abbrev enumerated : Board
enumerated = record {
  mock = record {
    bars_config = mock_bars;
    configuration_space = store_word 20 0x14_0001 (store_word 16 0x10_0001 mock_space);
    mock_dev_client = with_bars;
  };
  host = with_bars;
  pending = [];
}
