-- ===== src/Examples/Errors.antt =====
-- Runs of the DMA driver and of the helpers on concrete input, where something is refused or given up.
use warp_pipe.Base.{◌≡◌, refl, true, none, some, [], negsuc, poke, slice}
use warp_pipe.Dma.State.{loaded, Driver, success, einval, ebusy, eio}
use warp_pipe.Dma.Config.{dma_emul_configure}
use warp_pipe.Dma.Start.{dma_emul_start}
use warp_pipe.Dma.Worker.{idle, run}
use warp_pipe.Dma.Worker.Steps.{at}
use warp_pipe.MemoryMock.{read_bar}
use warp_pipe.Zephyr.{read_config_header_field}
use warp_pipe.Examples.Dma.{config, line, two_blocks, rest_driver, loaded_driver, started_driver}
use warp_pipe.Examples.Reads.{link}

-- A slot that a channel does not have.
no_such_slot :
    (dma_emul_configure config rest_driver 1 (record two_blocks { dma_slot = 3 })).0 ≡ einval
unfolding dma_emul_configure
no_such_slot = refl

-- Two blocks from slot 2 on are taken, though there are three slots: the second block goes to the
-- channel behind.
spilled : (dma_emul_configure config rest_driver 0 (record two_blocks { dma_slot = 2 })).0 ≡ success
unfolding dma_emul_configure
spilled = refl

not_twice : (dma_emul_configure config loaded_driver 1 two_blocks).0 ≡ ebusy
unfolding dma_emul_configure
not_twice = refl

unused_refused : dma_emul_start config line 1 rest_driver [] 0 ≡ some (eio, rest_driver, [])
unfolding dma_emul_start
unused_refused = refl

-- A channel that is linked to itself is not started in any number of rounds; here, in ten.
abbrev looped_driver : Driver
looped_driver = record (rest_driver) {
  xfer = λ channel. record (two_blocks) {
    reserved = loaded;
    source_chaining_en = true;
    linked_channel = 0;
  };
}

never_started : dma_emul_start config line 10 looped_driver [] 0 ≡ none
unfolding dma_emul_start
never_started = refl

-- The first byte of a block and the last byte of another, after a run of the handler over two channels.
abbrev after_run : Driver
after_run = (run config line 60 (at config line idle started_driver [])).driver

copied_first : after_run.memory 100 ≡ 32
unfolding run poke slice read_bar
copied_first = refl

copied_last : after_run.memory 203 ≡ 83
unfolding run poke slice read_bar
copied_last = refl

-- A field that crosses the end of its word is refused.
crossing :
    read_config_header_field link 5 (λ _. 0) 3 2 (λ _. 0) none ≡ some (negsuc 0, (λ _. 0), none)
unfolding read_config_header_field
crossing = refl
