-- ===== src/Lib.antt =====
-- memwrapper, a C++ library for reading, writing and patching the memory of a 32-bit Windows
-- process.
--
-- The program's parts and their models, with paths from the repository's root:
--
-- - memwrapper/x86/memwrapper_basic.hpp: memory_pointer. Pointer.antt.
-- - memwrapper/x86/memwrapper_detail.hpp: relative addresses, alignment, the bytes of a value,
--   what templates know of a function type, and calls by convention. Detail.antt.
-- - memwrapper/x86/memwrapper_llmo.hpp: MemoryProt and scoped_unprotect (Llmo/Unprotect.antt); the
--   memory operations (Llmo/Operations.antt); search_memory_pattern (Llmo/Search.antt);
--   scoped_write, scoped_copy and scoped_fill (Scoped/Write.antt, Scoped/Copy.antt,
--   Scoped/Fill.antt); scoped_patch_unit and scoped_patch (Patch.antt).
-- - memwrapper/x86/memwrapper_allocator.hpp: basic_allocator (Allocator.antt) and asm_allocator
--   (Asm.antt, with a decoder of its instructions in Asm/Decoder.antt and a processor that runs
--   those of the trampoline's head and nops in Asm/Processor.antt).
-- - memwrapper/x86/memwrapper_hook.hpp: memhook. Hook/Object.antt has the object's methods and
--   Hook/Relocation.antt generate_trampoline_instructions.
--
-- memhook stands on all the others: install saves the original code with copy_memory, writes the
-- trampoline with asm_allocator in a page that basic_allocator has taken, and patches the hooked
-- function with write_memory and fill_memory, each of which opens a scoped_unprotect. The modules
-- below Hook follow these parts. Hook/Measure.antt is about the constructor's loop. Below
-- Hook/Relocation, Rewritten is the relation between instructions and what they become in the
-- trampoline, Writes and Ends say that the loop writes that, Copies has the instructions that stay
-- as they are, Targets and Branches say where the rewritten ones lead, and Short is the short jump
-- on which the loop counts too much. Below Hook/Object, Reads has the bytes of a relative
-- instruction and what the disassembler makes of them, Head is the trampoline's head, and Entry,
-- Leads and Enters are what the processor makes of it; Saved, Written and Patched are the three
-- steps of the first installation and Placed the memory that they leave; Installed is their sum
-- for a first instruction that is no call and Redirected for a call, and Constructed says which
-- constructed hooks may be installed so; Lifecycle and Chained are the two ways that remove can
-- go, and Restored and Cycle what a remove right after the installation does.
--
-- Hook/Object/Phases.antt puts these together into the life of a hook: a state machine whose events
-- are the calls of install and remove; later hooks on the same function, a stack of them, which
-- write their jump over ours and put back what they found; and other code that writes where the
-- hook has nothing. Memory and Represents say what a phase means for the object and for memory, in
-- an environment that other code has made; Hook/Object/Access.antt says what the object may access
-- there. Changes has the events of the environment and Switches those of the program, Refines that
-- each event keeps it so, Lives starts from a new hook, Runs sends the processor to the hook in
-- each phase, Context is what get_context tells the hooker there, and Ends is about the destructor
-- and call. Relocated, Others, Pair, Nested, Chain and Whole are about a second memhook on the same
-- function: what its install makes of our jump, how its methods are events to us, and ours to it,
-- how its original code leads to our trampoline, and how the two come and go.
--
-- Below Patch, Jobs and Units are a patch as a sequence of copies, Undo is about a patch that is
-- installed and destroyed, Copies about the constructor, which copies the caller's units with their
-- vectors, and Block about a block with both; Toggles is about a patch that is switched at will,
-- and Adds, Captures and Address about how the units are made.
--
-- Allocator/Appends.antt says when a run writes a list of bytes at the cursor and nothing else, and
-- how two such runs are one; Asm/Appends.antt has the lists of the instructions, and Asm/Nops.antt
-- the processor on nops.
--
-- The model's base: Base.antt holds shared names; Machine.antt is the address space as a function
-- from addresses to bytes, with a state of the operating system beside it, and commands that either
-- return or fault (an access violation); memcpy, memset and memcmp act on it byte by byte, and an
-- object does not wrap round the address space. Windows.antt is the interface of the Windows
-- functions that the code calls and the laws that its documentation states; both are parameters of
-- every definition and theorem that uses them. Windows/Simulation.antt is a small operating system
-- that obeys the laws, on which the modules below Tests.antt run the theorems.
--
-- A method that changes its object returns the new object. A C++ block with an object whose
-- destructor runs at its end is a function of the block's body (`unprotected`, `block`). The
-- storage of vectors and of buffers inside objects is in the modelled memory, so aliasing is a
-- hypothesis where it matters. Every loop but two is a recursion on a list or on a count. Two loops
-- of memhook run on fuel: the constructor's (`measure`) has 6 rounds, and each but the last adds a
-- byte or more to a size that stops it at 5; generate_trampoline_instructions (`generate`) has one
-- round more than the hook's size, and each round that goes on adds a byte or more to `step`. The
-- disassembler of memwrapper/hde is a parameter: a function from the bytes and an address to the
-- fields that memhook reads and the number of bytes that the engine reads for them, with the laws
-- in Hook/Disassembler.antt. memhook calls it on the function as it stands, without a
-- scoped_unprotect, so each call (`disassemble`) faults where one of those bytes may not be read.
-- The loops of search_memory_pattern are recursions on the bytes of the module and of the mask that
-- are left.
--
-- Not modelled: the Hacker Disassembler Engine in memwrapper/hde, which is another project's code;
-- memwrapper.h, which holds preprocessor tests and includes; scoped_write::install and
-- basic_allocator::dbvalues, which no compiler can instantiate; the indeterminate members after the
-- default constructors. Of the machine code that memhook writes the jump at the hooked function and
-- the head of the trampoline are run, with the hooker on or off, and the jump of a hook below that
-- a second one relocates; other rewritten instructions are compared as bytes and as branches. Later
-- hooks go in the opposite order in which they came, since each puts back what it found.
pub mod Base
pub mod Machine
pub mod Windows
pub mod Llmo
pub mod Scoped
pub mod Patch
pub mod Detail
pub mod Allocator
pub mod Tests
pub mod Pointer
pub mod Asm
pub mod Hook
